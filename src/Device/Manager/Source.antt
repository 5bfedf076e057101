-- ===== src/Device/Manager/Source.antt =====
-- The source check of device/manager.go.
use webpa_common.Base.{
  ◌≡◌, ◌↔◌, refl, Bool, true, false, String, String_discrete, ok, err, Outcome, arith, Bool-cases,
  inl, inr,
}
use webpa_common.Device.Id.{parse_id, find_submatch, match_prefix, match_word, folds}
use webpa_common.Device.Id
use webpa_common.Device.Id.Canonical
use webpa_common.Device.Manager.{source_is_valid, check_parsed, is_blank, id_match}

-- A blank text is no device name.
blank_invalid : (s : String) → is_blank s ≡ true → parse_id s ≡ err Id.invalid_device_name
unfolding is_blank parse_id folds
blank_invalid String.[] b = refl
blank_invalid (String.◌∷◌ c s) b =
    let m : folds "m" c ≡ false = ground arith in
    let u : folds "u" c ≡ false = ground arith in
    let d : folds "d" c ≡ false = ground arith in
    let e : folds "s" c ≡ false = ground arith in Canonical.parse_id_no_head c s m u d e

checked :
    (expected : String) (r : Outcome Id.Error String)
    → (((check_parsed true expected r).0 ≡ true) ↔ (r ≡ ok expected))
      × ((check_parsed false expected r).0 ≡ true)
      × ((enforce : Bool) → ((check_parsed enforce expected r).1 ≡ id_match) ↔ (r ≡ ok expected))
unfolding check_parsed
checked expected (err x) = ((λ p. cc, λ p. cc), refl, (λ f. (λ p. cc, λ p. cc)))
checked expected (ok actual) = elim (String_discrete expected actual) [
  | yes p ↦ (
    ((λ q. ground arith), (λ q. ground arith)),
    ground arith,
    (λ f. ((λ q. ground arith), (λ q. ground arith))),
  )
  | no p ↦ (
    ((λ q. ground arith), (λ q. ground arith)),
    ground arith,
    (λ f. ((λ q. ground arith), (λ q. ground arith))),
  )
]

-- Under enforcement a message passes exactly if its source parses to the device's own id. While the
-- check only monitors, every message passes. The label `id_match` is counted exactly for a source
-- that parses to the device's id.
pub source_is_valid_lem :
    (expected source : String)
    → (((source_is_valid true expected source).0 ≡ true) ↔ (parse_id source ≡ ok expected))
      × ((source_is_valid false expected source).0 ≡ true)
      × ((enforce : Bool)
          → ((source_is_valid enforce expected source).1 ≡ id_match)
            ↔ (parse_id source ≡ ok expected))
unfolding source_is_valid
source_is_valid_lem expected source = elim (Bool-cases (is_blank source)) [
  | inl b ↦
      let e = blank_invalid source b in
      (((λ p. ground arith), (λ p. cc)), ground arith, (λ f. ((λ p. ground arith), (λ p. cc))))
  | inr b ↦ rw (b, source_is_valid) (checked expected (parse_id source))
]
