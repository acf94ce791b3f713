-- ===== src/Vault/Rules.antt =====
-- How the accessors of the store act on predicates of the records, whatever accesses fail.
use desktop_wallet.Common.{◌≡◌, refl, Bool, true, false, List, [], ◌∷◌}
use desktop_wallet.Exec.{gets, modify, ◌>>◌}
use desktop_wallet.Exec.Runs.{Post, Runs, Runs-bind, Runs-gets, Runs-modify}
use desktop_wallet.Store.{World, VaultError, database, attempt, attempt_with}

module _ {P : Type 0} where
  -- a predicate of the records alone
  pub record Stored (S : World P → Type 0) : Type 0 where
    pub at : (w : World P) (rest : List Bool) → S w → S (record w { faults = rest })

  module _ {S : World P → Type 0} {R : World P → Type 0} (stored : Stored S)
      (weak : (w : World P) → S w → R w) where
    Post-attempt_with :
        (e : VaultError) (w : World P) (fs : List Bool)
        → S w
        → Post (λ _. S) R (attempt_with e w fs)
    unfolding attempt_with
    Post-attempt_with e w [] h = stored.at w [] h
    Post-attempt_with e w (true ∷ rest) h = weak _ (stored.at w rest h)
    Post-attempt_with e w (false ∷ rest) h = stored.at w rest h

    pub Runs-attempt : (e : VaultError) → Runs S (attempt e) (λ _. S) R
    unfolding attempt
    Runs-attempt e = record { at = λ w h. Post-attempt_with e w w.faults h }

    pub Runs-read :
        {A : Type 0} (f : World P → A)
        → Runs S (attempt database >> gets f) (λ a w. S w × (a ≡ f w)) R
    Runs-read f = Runs-bind _ _ (Runs-attempt database) (λ _. Runs-gets f (λ w h. (h, refl)))

    pub Runs-write :
        {T : World P → Type 0} (f : World P → World P)
        → ((w : World P) → S w → T (f w))
        → Runs S (attempt database >> modify f) (λ _. T) R
    Runs-write f h = Runs-bind _ _ (Runs-attempt database) (λ _. Runs-modify f h)
