-- ===== src/Syncmanager/Tests.antt =====
-- The connection pool and the scheduler at concrete inputs.
use vayu_mail_mobile.Base.{zero, suc, ℕ, refl, true, Option, none, some, List, [], ◌∷◌}
use vayu_mail_mobile.Syncmanager.Connpool.{Slot}
use vayu_mail_mobile.Syncmanager.Connpool.Tidy.{Tidy, Use, command, removal, use_all, use_all-Tidy}

abbrev empty_slot : Slot
empty_slot = record { conn = none; live = []; dialled = 0; runs = [] }

-- a command that fails on the first client only
abbrev flaky : ℕ → Option ℕ
flaky zero = some 500
flaky (suc c) = none

abbrev session : List (Use ℕ)
session =
    command true true flaky 1 2
    ∷ command true true flaky 3 4
    ∷ command true true (λ _. some 9) 5 6
    ∷ removal
    ∷ []

use_all-Tidy_example : Tidy (use_all session empty_slot)
use_all-Tidy_example = use_all-Tidy session empty_slot (refl, tt)
