-- ===== src/ContentTypes/Base64.antt =====
-- regularFile.go: which bodies `GetFileFromRequest` takes for base64, and what becomes of a body that is
-- neither a form nor JSON.
use mathlib.Core.Path.{subst, sym}
use text.Mathlib.Text.{starts_with}
use icapegclh.Prelude.{
  ℕ, zero, suc, ◌*◌, ◌≤◌, Bool, true, false, ◌&&◌, ◌||◌, ◌≡◌, refl, ap, ◌∙◌, ◌⊎◌, inl, inr, ◌↔◌, [],
  ◌∷◌, ◌++◌, All, length, arith, Bool-cases, if◌then◌else◌,
}
use icapegclh.FormPart.{Bytes}
use icapegclh.Header.{get}
use icapegclh.Http.{Request}
use icapegclh.External.{External}
use icapegclh.ContentTypes.{
  is_base64_char, is_padded, matches_base64, get_content_type, get_file_from_request,
  body_after_scanning,
}

-- A to Z, a to z, 0 to 9, "+" and "/".
abbrev pub IsLetter : ℕ → Type 0
IsLetter c =
    ((65 ≤ c) × (c ≤ 90)) ⊎ ((97 ≤ c) × (c ≤ 122)) ⊎ ((48 ≤ c) × (c ≤ 57)) ⊎ (c ≡ 43) ⊎ (c ≡ 47)

-- Nothing, "=" or "==".
pub data Padding : Type 0 where
  unpadded : Padding
  one : Padding
  two : Padding

unfoldable pub padding : Padding → Bytes
padding unpadded = []
padding one = 61 ∷ []
padding two = 61 ∷ 61 ∷ []

-- Letters and then padding, of a length that four divides.
pub record IsBase64 (body : Bytes) : Type 0 where
  pub letters : Bytes
  pub ends : Padding
  pub text : body ≡ letters ++ padding ends
  pub in_alphabet : All IsLetter letters
  pub blocks : ℕ
  pub whole : length body ≡ 4 * blocks

IsLetter-iff : (c : ℕ) → (is_base64_char c ≡ true) ↔ IsLetter c
unfolding is_base64_char
IsLetter-iff c = (λ h. ground arith, λ h. ground arith)

four_more :
    (a b c d : ℕ) (rest : Bytes)
    → IsLetter a
    → IsLetter b
    → IsLetter c
    → IsLetter d
    → IsBase64 rest
    → IsBase64 (a ∷ b ∷ c ∷ d ∷ rest)
four_more a b c d rest la lb lc ld r = record {
  letters = a ∷ b ∷ c ∷ d ∷ r.letters;
  ends = r.ends;
  text = ap (λ t. a ∷ b ∷ c ∷ d ∷ t) r.text;
  in_alphabet = (la, (lb, (lc, (ld, r.in_alphabet))));
  blocks = suc r.blocks;
  whole = let w = r.whole in omega arith;
}

-- The last block, where its last character is "=".
last_block :
    (a b c d : ℕ) (rest : Bytes) → is_padded a b c d rest ≡ true → IsBase64 (a ∷ b ∷ c ∷ d ∷ rest)
unfolding is_padded padding
last_block a b c d [] h =
    let is_end : d ≡ 61 = ground arith in
    let la = (IsLetter-iff a).0 (ground arith) in
    let lb = (IsLetter-iff b).0 (ground arith) in
    elim (Bool-cases (is_base64_char c)) [
      | inl letter ↦ record {
        letters = a ∷ b ∷ c ∷ [];
        ends = one;
        text = ap (λ e. a ∷ b ∷ c ∷ e ∷ []) is_end;
        in_alphabet = (la, (lb, ((IsLetter-iff c).0 letter, tt)));
        blocks = 1;
        whole = refl;
      }
      | inr other ↦
          let is_pad : c ≡ 61 = ground (arith, h, other) in
          record {
            letters = a ∷ b ∷ [];
            ends = two;
            text = ap (λ e. a ∷ b ∷ e ∷ d ∷ []) is_pad ∙ ap (λ e. a ∷ b ∷ 61 ∷ e ∷ []) is_end;
            in_alphabet = (la, (lb, tt));
            blocks = 1;
            whole = refl;
          }
    ]
last_block a b c d (x ∷ rest) h = absurd (cc h)

all_five :
    (a b c d e other : Bool)
    → ((a && b && c && d && e) || other) ≡ true
    → other ≡ false
    → (a ≡ true) × (b ≡ true) × (c ≡ true) × (d ≡ true) × (e ≡ true)
all_five true true true true true other h o = (refl, refl, refl, refl, refl)
all_five false b c d e other h o = absurd (cc (h, o))
all_five true false c d e other h o = absurd (cc (h, o))
all_five true true false d e other h o = absurd (cc (h, o))
all_five true true true false e other h o = absurd (cc (h, o))
all_five true true true true false other h o = absurd (cc (h, o))

matches-IsBase64 : (s : Bytes) → matches_base64 s ≡ true → IsBase64 s
unfolding matches_base64 padding
matches-IsBase64 [] h = record {
  letters = [];
  ends = unpadded;
  text = refl;
  in_alphabet = tt;
  blocks = 0;
  whole = refl;
}
matches-IsBase64 (a ∷ []) h = absurd (cc h)
matches-IsBase64 (a ∷ b ∷ []) h = absurd (cc h)
matches-IsBase64 (a ∷ b ∷ c ∷ []) h = absurd (cc h)
matches-IsBase64 (a ∷ b ∷ c ∷ d ∷ rest) h = elim (Bool-cases (is_padded a b c d rest)) [
  | inl ends ↦ last_block a b c d rest ends
  | inr goes_on ↦
      let (ea, eb, ec, ed, e) =
        all_five (is_base64_char a) (is_base64_char b) (is_base64_char c) (is_base64_char d)
          (matches_base64 rest) (is_padded a b c d rest) h goes_on in
      four_more a b c d rest ((IsLetter-iff a).0 ea) ((IsLetter-iff b).0 eb) ((IsLetter-iff c).0 ec)
        ((IsLetter-iff d).0 ed) (matches-IsBase64 rest e)
]

letters_match :
    (letters : Bytes) (p : Padding) (blocks : ℕ)
    → All IsLetter letters
    → length (letters ++ padding p) ≡ 4 * blocks
    → matches_base64 (letters ++ padding p) ≡ true
unfolding matches_base64 padding is_padded
letters_match [] unpadded blocks h w = refl
letters_match [] one blocks h w = absurd (omega arith)
letters_match [] two blocks h w = absurd (omega arith)
letters_match (a ∷ []) unpadded blocks h w = absurd (omega arith)
letters_match (a ∷ []) one blocks h w = absurd (omega arith)
letters_match (a ∷ []) two blocks h w = absurd (omega arith)
letters_match (a ∷ b ∷ []) unpadded blocks h w = absurd (omega arith)
letters_match (a ∷ b ∷ []) one blocks h w = absurd (omega arith)
letters_match (a ∷ b ∷ []) two blocks (la, (lb, _)) w =
    let ea = (IsLetter-iff a).1 la in let eb = (IsLetter-iff b).1 lb in ground (arith, ea, eb)
letters_match (a ∷ b ∷ c ∷ []) unpadded blocks h w = absurd (omega arith)
letters_match (a ∷ b ∷ c ∷ []) one blocks (la, (lb, (lc, _))) w =
    let ea = (IsLetter-iff a).1 la in
    let eb = (IsLetter-iff b).1 lb in let ec = (IsLetter-iff c).1 lc in ground (arith, ea, eb, ec)
letters_match (a ∷ b ∷ c ∷ []) two blocks h w = absurd (omega arith)
letters_match (a ∷ b ∷ c ∷ d ∷ letters) p zero h w = absurd (omega arith)
letters_match (a ∷ b ∷ c ∷ d ∷ letters) p (suc blocks) (la, (lb, (lc, (ld, l)))) w =
    let ea = (IsLetter-iff a).1 la in
    let eb = (IsLetter-iff b).1 lb in
    let ec = (IsLetter-iff c).1 lc in
    let ed = (IsLetter-iff d).1 ld in
    let e = letters_match letters p blocks l (omega arith) in ground (arith, ea, eb, ec, ed, e)

matches_base64_iff : (s : Bytes) → (matches_base64 s ≡ true) ↔ IsBase64 s
matches_base64_iff s = (
  matches-IsBase64 s,
  λ b.
      subst (λ t. matches_base64 t ≡ true) (sym b.text)
        (letters_match b.letters b.ends b.blocks b.in_alphabet (ap length (sym b.text) ∙ b.whole)),
)

false_is_not_true : (b : Bool) → b ≡ false → b ≡ true → ⊥
false_is_not_true b e f = cc (e, f)

-- The file of a body, and what is written back for it.
abbrev pub Becomes : External → Request → Bytes → Type 0
Becomes ext req file =
    (get_file_from_request ext (get_content_type ext req) ≡ file)
    × (body_after_scanning ext (get_content_type ext req)
          (get_file_from_request ext (get_content_type ext req))
        ≡ file)

plain_body :
    (ext : External) (req : Request)
    → starts_with (get ext.canonical req.header "Content-Type") "multipart/" ≡ false
    → starts_with (get ext.canonical req.header "Content-Type") "application/json" ≡ false
    → Becomes ext req (if matches_base64 req.body then ext.base64_decode req.body else req.body)
unfolding body_after_scanning get_file_from_request get_content_type
plain_body ext req m j = (rw (m, j) refl, rw (m, j) refl)

-- A body that is neither a form nor JSON either is base64, which is letters of its alphabet and then at
-- most two "=", of a length that four divides, and then its file is the decoded body, or it is not, and
-- then its file is the body itself; in both cases the file that is written back unchanged goes out as it
-- is, and is not encoded again.
pub body_after_scanning-IsBase64 :
    (ext : External) (req : Request)
    → starts_with (get ext.canonical req.header "Content-Type") "multipart/" ≡ false
    → starts_with (get ext.canonical req.header "Content-Type") "application/json" ≡ false
    → (IsBase64 req.body × Becomes ext req (ext.base64_decode req.body))
      ⊎ ((¬ IsBase64 req.body) × Becomes ext req req.body)
body_after_scanning-IsBase64 ext req m j =
    let plain = plain_body ext req m j in
    let chosen : Bool → Bytes = λ b. if b then ext.base64_decode req.body else req.body in
    elim (Bool-cases (matches_base64 req.body)) [
      | inl matched ↦ inl (
        (matches_base64_iff req.body).0 matched,
        subst (λ b. Becomes ext req (chosen b)) matched plain,
      )
      | inr unmatched ↦ inr (
        λ b. false_is_not_true _ unmatched ((matches_base64_iff req.body).1 b),
        subst (λ b. Becomes ext req (chosen b)) unmatched plain,
      )
    ]
