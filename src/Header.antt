-- ===== src/Header.antt =====
-- `http.Header` and `textproto.MIMEHeader`: a map from keys to lists of values. The order of a Go
-- map is not observable, so an association list with one entry to a key stands for it. Keys are
-- canonicalised by the standard library's `CanonicalMIMEHeaderKey`, the parameter `canonical`.
pub mod Deleted
use icapegclh.Prelude.{
  String, ◌≡◌, refl, ap, ◌∙◌, Option, none, some, List, [], ◌∷◌, ◌++◌, arith, ◌==◌, eq_iff, eq_refl,
  if◌then◌else◌,
}
use icapegclh.Text.{head_or}

abbrev pub Header : Type 0
Header = List (String × List String)

-- `m[key]`
unfoldable pub lookup {ℓ} : {V : Type ℓ} → String → List (String × V) → Option V
lookup key [] = none
lookup key (entry ∷ rest) = if entry.0 == key then some entry.1 else lookup key rest

-- `delete(m, key)`
unfoldable pub remove {ℓ} : {V : Type ℓ} → String → List (String × V) → List (String × V)
remove key [] = []
remove key (entry ∷ rest) =
    let others = remove key rest in if entry.0 == key then others else entry ∷ others

-- `m[key] = value`
unfoldable pub insert {ℓ} : {V : Type ℓ} → String → V → List (String × V) → List (String × V)
insert key value entries = (key, value) ∷ remove key entries

abbrev pub values_or_nil : Option (List String) → List String
values_or_nil none = []
values_or_nil (some vs) = vs

module _ {ℓ} {V : Type ℓ} where
  lookup-remove :
      (removed key : String) (entries : List (String × V))
      → lookup key (remove removed entries) ≡ (if removed == key then none else lookup key entries)
  unfolding lookup remove
  lookup-remove removed key [] = ground arith
  lookup-remove removed key (entry ∷ rest) = ground (
    arith,
    lookup-remove removed key rest,
    eq_iff removed key,
    eq_iff entry.0 removed,
    eq_iff entry.0 key,
  )

  pub lookup-insert :
      (added key : String) (value : V) (entries : List (String × V))
      → lookup key (insert added value entries)
        ≡ (if added == key then some value else lookup key entries)
  unfolding lookup insert
  lookup-insert added key value entries = ground (arith, lookup-remove added key entries)

  lookup-insert_same :
      (key : String) (value : V) (entries : List (String × V))
      → lookup key (insert key value entries) ≡ some value
  lookup-insert_same key value entries = rw (lookup-insert key key value entries, eq_refl key) refl

module _ (canonical : String → String) where
  -- `h.Get(k)`
  unfoldable pub get : Header → String → String
  get h k = head_or "" (values_or_nil (lookup (canonical k) h))

  -- `h.Set(k, v)`
  unfoldable pub set : String → String → Header → Header
  set k v h = insert (canonical k) (v ∷ []) h

  -- `h.Add(k, v)`
  unfoldable pub add : String → String → Header → Header
  add k v h = insert (canonical k) (values_or_nil (lookup (canonical k) h) ++ v ∷ []) h

  -- `h.Del(k)`
  unfoldable pub del : String → Header → Header
  del k h = remove (canonical k) h

  -- The loop `for key := range h { h.Del(key) }`, over the keys that `h` had at its start.
  unfoldable pub del_keys : Header → Header → Header
  unfolding del
  del_keys [] h = h
  del_keys ((k, _) ∷ m) h = del_keys m (del k h)

  pub get-set_self : (k v : String) (h : Header) → get (set k v h) k ≡ v
  unfolding get set
  get-set_self k v h = rw (lookup-insert_same (canonical k) (v ∷ []) h)

  pub lookup-set :
      (k key v : String) (h : Header)
      → canonical k ≡ k
      → lookup key (set k v h) ≡ (if k == key then some (v ∷ []) else lookup key h)
  unfolding set
  lookup-set k key v h e =
      ap (λ name. lookup key (insert name (v ∷ []) h)) e ∙ lookup-insert k key (v ∷ []) h
