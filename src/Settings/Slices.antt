-- ===== src/Settings/Slices.antt =====
-- A list in an environment variable: "[a,b,c]".
use Prim.Native.Char.{Char, code}
use Prim.Native.String.{[] as nil, ◌∷◌ as ◌∷ˢ◌}
use text.Mathlib.TextLemmas.{nil-append, cons-append}
use icapegclh.Prelude.{
  ℕ, String, ◌<>◌, false, ◌≡◌, refl, ap, sym, ◌∙◌, some, List, [], ◌∷◌, nat_eq, All,
}
use icapegclh.Prelude.Outcome.{Outcome, done, ◌>>=◌}
use icapegclh.Text.{split_char, remove_char, slice_from, slice_init, push_front}
use icapegclh.Settings.{Source, drop_first, drop_last, read_slice_from_env}

-- The text of a list, without its opening bracket.
unfoldable pub joined : String → List String → String
joined x [] = x <> "]"
joined x (y ∷ ys) = x <> ("," <> joined y ys)

-- No rune of a text has this code.
unfoldable pub Lacks : ℕ → String → Type 0
Lacks old nil = Unit {0}
Lacks old (c ∷ˢ s) = (nat_eq (code c) old ≡ false) × Lacks old s

remove_char-Lacks : (old : ℕ) (s : String) → Lacks old s → remove_char old s ≡ s
unfolding Lacks remove_char
remove_char-Lacks old nil h = refl
remove_char-Lacks old (c ∷ˢ s) (other, h) = rw (other, remove_char-Lacks old s h) refl

Lacks-append : (old : ℕ) (s t : String) → Lacks old s → Lacks old t → Lacks old (s <> t)
unfolding Lacks
Lacks-append old nil t hs ht = rw (nil-append t) ht
Lacks-append old (c ∷ˢ s) t (other, hs) ht =
    rw (cons-append c s t) (other, Lacks-append old s t hs ht)

split_char-Lacks : (sep : ℕ) (s : String) → Lacks sep s → split_char sep s ≡ s ∷ []
unfolding Lacks split_char
split_char-Lacks sep nil h = refl
split_char-Lacks sep (c ∷ˢ s) (other, h) = rw (other, split_char-Lacks sep s h) refl

push-append : (c : Char) (t : String) → (c ∷ˢ nil) <> t ≡ (c ∷ˢ t)
push-append c t = cons-append c nil t ∙ rw (nil-append t) refl

comma-split : (t : String) → split_char b',' ("," <> t) ≡ "" ∷ split_char b',' t
unfolding split_char
comma-split t = ap (split_char b',') (push-append _ t)

split_char-word :
    (s t : String) → Lacks b',' s → split_char b',' (s <> ("," <> t)) ≡ s ∷ split_char b',' t
unfolding Lacks split_char
split_char-word nil t h = rw (nil-append ("," <> t)) (comma-split t)
split_char-word (c ∷ˢ s) t (other, h) =
    rw (cons-append c s ("," <> t), other, split_char-word s t h) refl

-- The pieces between the commas: the last has the closing bracket.
pieces : String → List String → List String
pieces x [] = (x <> "]") ∷ []
pieces x (y ∷ ys) = x ∷ pieces y ys

-- A word has no comma, no quotation mark and no space.
abbrev pub IsWord : String → Type 0
IsWord s = Lacks b',' s × Lacks b'"' s × Lacks b' ' s

split_char-joined :
    (x : String) (xs : List String)
    → IsWord x
    → All IsWord xs
    → split_char b',' (joined x xs) ≡ pieces x xs
unfolding joined pieces Lacks
split_char-joined x [] (h, _, _) hs =
    split_char-Lacks b',' (x <> "]") (Lacks-append b',' x "]" h (refl, tt))
split_char-joined x (y ∷ ys) (h, _, _) (hy, hys) =
    split_char-word x (joined y ys) h ∙ ap (λ l. x ∷ l) (split_char-joined y ys hy hys)

joined-Lacks :
    (old : ℕ) (x : String) (xs : List String)
    → Lacks old "]"
    → Lacks old ","
    → Lacks old x
    → All (Lacks old) xs
    → Lacks old (joined x xs)
unfolding joined
joined-Lacks old x [] bracket comma h hs = Lacks-append old x "]" h bracket
joined-Lacks old x (y ∷ ys) bracket comma h (hy, hys) =
    Lacks-append old x ("," <> joined y ys) h
      (Lacks-append old "," (joined y ys) comma (joined-Lacks old y ys bracket comma hy hys))

slice_init-last : (x : String) → slice_init (x <> "]") ≡ some x
unfolding slice_init
slice_init-last nil = refl
slice_init-last (c ∷ˢ nil) = ap slice_init (push-append c "]")
slice_init-last (c ∷ˢ (d ∷ˢ s)) =
    let rest : slice_init (d ∷ˢ (s <> "]")) ≡ some (d ∷ˢ s) =
      ap slice_init (sym (cons-append d s "]")) ∙ slice_init-last (d ∷ˢ s) in
    ap slice_init (cons-append c (d ∷ˢ s) "]" ∙ ap (λ t. c ∷ˢ t) (cons-append d s "]"))
    ∙ rw (rest, slice_init) refl

drop_last-pieces : (x : String) (xs : List String) → drop_last (pieces x xs) ≡ done (x ∷ xs)
unfolding pieces drop_last
drop_last-pieces x [] = rw (slice_init-last x, drop_last) refl
drop_last-pieces x (y ∷ []) = rw (slice_init-last y, drop_last) refl
drop_last-pieces x (y ∷ z ∷ zs) = rw (drop_last-pieces y (z ∷ zs), drop_last) refl

drop_first-pieces :
    (c : Char) (x : String) (xs : List String)
    → drop_first (push_front c (pieces x xs)) ≡ done (pieces x xs)
unfolding drop_first slice_from pieces
drop_first-pieces c x [] = refl
drop_first-pieces c x (y ∷ ys) = refl

-- The bracket at the start.
bracket-split :
    (x : String) (xs : List String)
    → IsWord x
    → All IsWord xs
    → drop_first (split_char b',' ("[" <> joined x xs)) ≡ done (pieces x xs)
unfolding split_char
bracket-split x xs h hs =
    ap (λ t. drop_first (split_char b',' t)) (push-append "[" (joined x xs))
    ∙ ap (λ l. drop_first (push_front "[" l)) (split_char-joined x xs h hs)
    ∙ drop_first-pieces "[" x xs

quotes : (s : String) → IsWord s → Lacks b'"' s
quotes s (_, h, _) = h

spaces : (s : String) → IsWord s → Lacks b' ' s
spaces s (_, _, h) = h

All-map :
    {P Q : String → Type 0} → ((s : String) → P s → Q s) → (xs : List String) → All P xs → All Q xs
All-map f [] h = tt
All-map f (x ∷ xs) (h, hs) = (f x h, All-map f xs hs)

-- A variable that holds the list of words, in brackets and with commas, is read back as that list.
pub read_slice_from_env-joined :
    (src : Source) (var_name x : String) (xs : List String)
    → IsWord x
    → All IsWord xs
    → src.getenv var_name ≡ "[" <> joined x xs
    → read_slice_from_env src var_name ≡ done (x ∷ xs)
unfolding read_slice_from_env Lacks
read_slice_from_env-joined src var_name x xs h hs e =
    let text = "[" <> joined x xs in
    let no_space : Lacks b' ' text =
      Lacks-append b' ' "[" (joined x xs) (refl, tt)
        (joined-Lacks b' ' x xs (refl, tt) (refl, tt) (spaces x h) (All-map spaces xs hs)) in
    let no_quote : Lacks b'"' text =
      Lacks-append b'"' "[" (joined x xs) (refl, tt)
        (joined-Lacks b'"' x xs (refl, tt) (refl, tt) (quotes x h) (All-map quotes xs hs)) in
    let read : String → Outcome (List String) =
      λ t. (drop_first (split_char b',' t) >>= λ l. drop_last l) in
    ap (λ t. read (remove_char b'"' (remove_char b' ' t))) e
    ∙ ap (λ t. read (remove_char b'"' t)) (remove_char-Lacks b' ' text no_space)
    ∙ ap read (remove_char-Lacks b'"' text no_quote)
    ∙ ap (λ (o : Outcome (List String)). o >>= λ l. drop_last l) (bracket-split x xs h hs)
    ∙ drop_last-pieces x xs
