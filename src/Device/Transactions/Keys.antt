-- ===== src/Device/Transactions/Keys.antt =====
-- `Keys` of device/transactions.go, whose loop writes to a slice that `make` has sized.
use webpa_common.Base.{
  ℕ, suc, ◌≡◌, refl, ◌∙◌, List, [], ◌∷◌, ◌++◌, map, String, GoMap, length, set, replicate, arith,
}
use webpa_common.Device.Transactions.{Transactions, fill_keys, keys}
use mathlib.Core.List.{append_assoc}

set-append :
    (done rest : List String) (x key : String)
    → set (done ++ x ∷ rest) (length done) key ≡ (done ++ key ∷ []) ++ rest
set-append [] rest x key = refl
set-append (d ∷ done) rest x key = ground (arith, set-append done rest x key)

length-snoc : (done : List String) (key : String) → length (done ++ key ∷ []) ≡ suc (length done)
length-snoc [] key = refl
length-snoc (d ∷ done) key = ground (arith, length-snoc done key)

fill_keys_lem :
    (done : List String) (m : GoMap String ℕ)
    → fill_keys (length done) (done ++ replicate (length m) "") m ≡ done ++ map (λ e. e.0) m
unfolding fill_keys
fill_keys_lem done [] = refl
fill_keys_lem done ((key, h) ∷ m) =
    rw (set-append done (replicate (length m) "") "" key, ← length-snoc done key)
      (fill_keys_lem (done ++ key ∷ []) m ∙ append_assoc done (key ∷ []) (map (λ e. e.0) m))

-- `Keys` returns each pending key once, with no slot left empty and no write out of range.
pub keys-pending : {R : Type 0} (t : Transactions R) → keys t ≡ map (λ e. e.0) t.pending
unfolding keys
keys-pending t = fill_keys_lem [] t.pending
