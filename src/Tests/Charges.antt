-- ===== src/Tests/Charges.antt =====
-- Runs of capacitor, on a capacitor with one delayer.
use webpa_common.Base.{
  ℕ, ◌≤◌, ◌≡◌, ◌⊎◌, refl, true, false, if◌then◌else◌, ltb, none, some, List, [], ◌∷◌, ok, update,
}
use webpa_common.Capacitor.{
  Capacitor, Delayer, waiting, Action, submits, ends, ticks, advances, run, new,
}
use webpa_common.Capacitor.Soundness.{is_over, run-new_once}
use webpa_common.Capacitor.Ending.{end_charge_decides}

abbrev blank : ℕ → Delayer
blank h = record { current = 0; terminate = none; timer_ready = false; phase = waiting; runs = 0 }

abbrev charged : Capacitor
charged = record {
  d = some 0;
  delayers =
      update blank 0
        (record { current = 5; terminate = none; timer_ready = false; phase = waiting; runs = 0 });
  allocated = 1;
  executed = [];
}

submitted : run (submits 5 ∷ []) (new blank) ≡ ok charged
unfolding run new
submitted = refl

-- The timer fires just as the call is cancelled.
abbrev race : List Action
race = ticks 0 ∷ advances true 0 ∷ advances true 0 ∷ []

end_charge_decides_example :
    (c' : Capacitor) × (run (ends false ∷ race) charged ≡ ok c')
    × (((is_over (c'.delayers 0).phase ≡ false) × ((c'.delayers 0).runs ≡ 0))
        ⊎ ((is_over (c'.delayers 0).phase ≡ true)
            × ((c'.delayers 0).runs ≡ (if false then 1 else 0))))
end_charge_decides_example =
    end_charge_decides blank (submits 5 ∷ []) race false charged 0 submitted refl refl

run-new_once_example :
    (c : Capacitor) × (run (submits 5 ∷ race) (new blank) ≡ ok c)
    × ((ltb 0 c.allocated ≡ false) ⊎ ((c.delayers 0).runs ≤ 1))
run-new_once_example = run-new_once blank (submits 5 ∷ race) 0
