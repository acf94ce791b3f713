-- ===== src/Tests/Covering.antt =====
-- The theorem on covering an amount, at a concrete input.
use desktop_wallet.Common.{◌<◌, ◌≡◌, ◌⊎◌, true, List, total, keep, arith}
use desktop_wallet.Common.Outcome.{ok, err}
use desktop_wallet.Pools.{cannot_cover}
use desktop_wallet.Selection.{Note, denom}
use desktop_wallet.Selection.Theorems.{Selects}
use desktop_wallet.Withdrawal.{is_eligible, cover_notes}
use desktop_wallet.Withdrawal.Covers.{cover_notes-cases}
use desktop_wallet.Tests.{library, held, held-Holdings}

cover_notes-cases_example :
    ((sel : List (Note library)) × (cover_notes library 12 held ≡ ok sel)
      × Selects library (is_eligible library) true 12 held sel)
    ⊎ ((cover_notes library 12 held ≡ err (cannot_cover 12))
        × (total (denom library) (keep (is_eligible library) held) < 12))
cover_notes-cases_example = cover_notes-cases library 12 held held-Holdings (λ e. omega (arith, e))
