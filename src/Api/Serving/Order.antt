-- ===== src/Api/Serving/Order.antt =====
-- api/icap-request.go, `NewICAPRequest`: the order in which a map's entries are ranged over.
use mathlib.Core.Path.{fun_ext}
use icapegclh.Prelude.{String, ◌≡◌, ◌≢◌, refl, sym, ◌∙◌, ap, arith, eq_iff, List, [], ◌∷◌}
use icapegclh.Prelude.Outcome
use icapegclh.Prelude.Outcome.{Outcome, done, panicked}
use icapegclh.Settings.{Source}
use icapegclh.Config.{ServiceIcapInfo}
use icapegclh.Service.Dispatch.{Configs, init_service_config}
use icapegclh.Api.Serving.{load_configs}

two_loads :
    (src : Source) (v w m n : String) (c : Configs)
    → v ≢ w
    → Outcome.◌>>=◌ (init_service_config src v m c) (init_service_config src w n)
      ≡ Outcome.◌>>=◌ (init_service_config src w n c) (init_service_config src v m)
unfolding init_service_config
two_loads src v w m n c different = ground (
  arith,
  different,
  eq_iff v "echo",
  eq_iff w "echo",
  eq_iff v "clhashlookup",
  eq_iff w "clhashlookup",
  eq_iff v "clamav",
  eq_iff w "clamav",
)

-- The orders that exchanges of neighbours of different vendors reach.
pub data Reordered
    : List (String × ServiceIcapInfo) → List (String × ServiceIcapInfo) → Type 0 where
  empty : Reordered [] []
  keep :
      (entry : String × ServiceIcapInfo) {l l' : List (String × ServiceIcapInfo)}
      → Reordered l l'
      → Reordered (entry ∷ l) (entry ∷ l')
  exchange :
      (m n : String) (a b : ServiceIcapInfo) (l : List (String × ServiceIcapInfo))
      → a.vendor ≢ b.vendor
      → Reordered ((m, a) ∷ (n, b) ∷ l) ((n, b) ∷ (m, a) ∷ l)
  next :
      {l l' l'' : List (String × ServiceIcapInfo)}
      → Reordered l l'
      → Reordered l' l''
      → Reordered l l''

>>=-assoc :
    {A B C : Type 0} (m : Outcome A) (f : A → Outcome B) (g : B → Outcome C)
    → Outcome.◌>>=◌ (Outcome.◌>>=◌ m f) g ≡ Outcome.◌>>=◌ m (λ a. Outcome.◌>>=◌ (f a) g)
>>=-assoc (done a) f g = refl
>>=-assoc panicked f g = refl

-- The configurations that are loaded for a request, or the failure to load one, are the same for every
-- order of the services that exchanges of neighbours of different vendors reach.
pub load_configs-Reordered :
    (src : Source) (l l' : List (String × ServiceIcapInfo)) (c : Configs)
    → Reordered l l'
    → load_configs src l c ≡ load_configs src l' c
unfolding load_configs
load_configs-Reordered src [] [] c empty = refl
load_configs-Reordered src _ _ c (keep (n, info) {l} {l'} r) =
    ap (Outcome.◌>>=◌ (init_service_config src info.vendor n c))
      (fun_ext (λ c'. load_configs-Reordered src l l' c' r))
load_configs-Reordered src _ _ c (exchange m n a b l different) =
    sym (
      >>=-assoc (init_service_config src a.vendor m c) (init_service_config src b.vendor n)
        (load_configs src l))
    ∙ ap (λ o. Outcome.◌>>=◌ o (load_configs src l))
        (two_loads src a.vendor b.vendor m n c different)
    ∙ >>=-assoc (init_service_config src b.vendor n c) (init_service_config src a.vendor m)
        (load_configs src l)
load_configs-Reordered src l l'' c (next {l' = l'} r r') =
    load_configs-Reordered src l l' c r ∙ load_configs-Reordered src l' l'' c r'
