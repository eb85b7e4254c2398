-- ===== src/Playback/Preserve/Claims.antt =====
-- Plays that share one preserved entry: it leaves the queue only where all of them failed.
use relaytv.Prelude.{lt→ltb, ==_iff}
use relaytv.Playback.Preserve.{drop_redundant}
use relaytv.Playback.Preserve.{claims_on}
use relaytv.Playback.Preserve.{give_back}
use relaytv.Playback.Preserve.{settle_play_now_preserve}
use relaytv.Playback.Preserve.{Preserved}
use relaytv.Playback.Preserve.{claims_of}
use relaytv.Playback.Preserve.{rollback_play_now_preserve}
use relaytv.Prelude.{
  nat_eq, ≟_refl, ℕ, suc, ◌≡◌, refl, sym, subst, true, false, ◌&&◌, ◌||◌, Bool, some, List, [], ◌∷◌,
  length, if◌then◌else◌, arith, ◌-◌,
}
use relaytv.Prelude.Dict

-- How a play that shares the entry ends: it fails, or it settles with what plays now.
pub data Ending (A : Type 0) : Type 0 where
  fails : Ending A
  settles : A → Ending A

module _ {A : Type 0} where
  -- Whether some play settles.
  unfoldable pub some_settle : List (Ending A) → Bool
  some_settle [] = false
  some_settle (fails ∷ endings) = some_settle endings
  some_settle (settles now ∷ endings) = true

  abbrev pub shared : ℕ → A → List (ℕ × A) → Dict.Dict ℕ ℕ → Dict.Dict ℕ Bool → Preserved A
  shared handle x queue claims committed = record {
    queue = (handle, x) ∷ queue;
    claims = claims;
    committed = committed;
  }

-- Each play ends once, in any order.
unfoldable pub end_each :
    {A : Type 0}
    → (A → A → Bool)
    → (A → A → Bool)
    → (A → Bool)
    → ℕ
    → A
    → List (Ending A)
    → Preserved A
    → Preserved A
unfolding rollback_play_now_preserve settle_play_now_preserve
end_each same equal is_kept handle x [] p = p
end_each same equal is_kept handle x (fails ∷ endings) p =
    end_each same equal is_kept handle x endings (rollback_play_now_preserve equal handle x p)
end_each same equal is_kept handle x (settles now ∷ endings) p =
    end_each same equal is_kept handle x endings
      (settle_play_now_preserve same is_kept (some handle) now p)

-- Whether the preserved item is what plays once one of them settles.
unfoldable pub is_replayed : {A : Type 0} → (A → A → Bool) → A → List (Ending A) → Bool
is_replayed same x [] = false
is_replayed same x (fails ∷ endings) = is_replayed same x endings
is_replayed same x (settles now ∷ endings) = same x now || is_replayed same x endings

-- The entry is at the front or has left it, and nothing of it is left in the tables.
pub record IsSettled {A : Type 0} (handle : ℕ) (queue : List (ℕ × A)) (p : Preserved A)
    : Type 0 where
  pub queue_is : p.queue ≡ queue
  pub no_claims : claims_on handle p ≡ 0
  pub not_committed : Dict.has_key p.committed handle ≡ false

or_false : (b : Bool) → (b || false) ≡ b
or_false true = refl
or_false false = refl

or_true : (b : Bool) → (b || true) ≡ true
or_true true = refl
or_true false = refl

and_false : (b : Bool) → (b && false) ≡ false
and_false true = refl
and_false false = refl

module _ {A : Type 0} (same equal : A → A → Bool) (is_kept : A → Bool) (handle : ℕ) (x : A)
    (queue : List (ℕ × A)) where
  abbrev Holds : Bool → Preserved A → Type 0
  Holds stays p = IsSettled handle (if stays then (handle, x) ∷ queue else queue) p

  popped_claims :
      (claims : Dict.Dict ℕ ℕ) → claims_of (Dict.get (Dict.pop claims handle) handle) ≡ 0
  popped_claims claims = rw (Dict.get-pop claims handle handle, ≟_refl handle) refl

  popped_committed :
      (committed : Dict.Dict ℕ Bool) → Dict.has_key (Dict.pop committed handle) handle ≡ false
  popped_committed committed = rw (Dict.has_key-pop committed handle handle, ≟_refl handle) refl

  put_claims :
      (claims : Dict.Dict ℕ ℕ) (n : ℕ) → claims_of (Dict.get (Dict.put claims handle n) handle) ≡ n
  put_claims claims n = rw (Dict.get-put claims handle handle n, ≟_refl handle) refl

  put_committed :
      (committed : Dict.Dict ℕ Bool) → Dict.has_key (Dict.put committed handle true) handle ≡ true
  put_committed committed = rw (Dict.has_key-put committed handle handle true, ≟_refl handle) refl

  last_rollback :
      (claims : Dict.Dict ℕ ℕ) (committed : Dict.Dict ℕ Bool) (b : Bool)
      → claims_of (Dict.get claims handle) ≡ 1
      → Dict.has_key committed handle ≡ b
      → Holds b (rollback_play_now_preserve equal handle x (shared handle x queue claims committed))
  unfolding rollback_play_now_preserve claims_on
  last_rollback claims committed true h g =
      rw (h, g)
        (record {
          queue_is = refl;
          no_claims = popped_claims claims;
          not_committed = popped_committed committed;
        })
  last_rollback claims committed false h g =
      rw (h, g, (==_iff handle handle).1 refl)
        (record { queue_is = refl; no_claims = popped_claims claims; not_committed = g })

  last_settle :
      (now : A) (claims : Dict.Dict ℕ ℕ) (committed : Dict.Dict ℕ Bool)
      → claims_of (Dict.get claims handle) ≡ 1
      → same x now ≡ false
      → Holds true (
          settle_play_now_preserve same is_kept
            (some handle)
            now
            (shared handle x queue claims committed))
  unfolding settle_play_now_preserve give_back drop_redundant claims_on
  last_settle now claims committed h g =
      rw (h, g, and_false (is_kept x))
        (record {
          queue_is = refl;
          no_claims = popped_claims claims;
          not_committed = popped_committed committed;
        })

  more_rollback :
      (claims : Dict.Dict ℕ ℕ) (committed : Dict.Dict ℕ Bool) (n : ℕ)
      → claims_of (Dict.get claims handle) ≡ suc (suc n)
      → rollback_play_now_preserve equal handle x (shared handle x queue claims committed)
        ≡ shared handle x queue (Dict.put claims handle (suc n)) committed
  unfolding rollback_play_now_preserve claims_on
  more_rollback claims committed n h =
      let left : claims_of (Dict.get claims handle) - 1 ≡ suc n = omega (arith, h) in
      rw (left, lt→ltb 0 (suc n) (omega arith)) refl

  more_settle :
      (now : A) (claims : Dict.Dict ℕ ℕ) (committed : Dict.Dict ℕ Bool) (n : ℕ)
      → claims_of (Dict.get claims handle) ≡ suc (suc n)
      → same x now ≡ false
      → settle_play_now_preserve same is_kept
          (some handle)
          now
          (shared handle x queue claims committed)
        ≡ shared handle x queue (Dict.put claims handle (suc n)) (Dict.put committed handle true)
  unfolding settle_play_now_preserve give_back drop_redundant claims_on
  more_settle now claims committed n h g =
      let left : claims_of (Dict.get claims handle) - 1 ≡ suc n = omega (arith, h) in
      rw (left, lt→ltb 0 (suc n) (omega arith)) (rw (g, and_false (is_kept x)) refl)

  ended :
      (endings : List (Ending A)) (claims : Dict.Dict ℕ ℕ) (committed : Dict.Dict ℕ Bool) (b : Bool)
      (e : Ending A)
      → claims_of (Dict.get claims handle) ≡ length (e ∷ endings)
      → Dict.has_key committed handle ≡ b
      → is_replayed same x (e ∷ endings) ≡ false
      → Holds (b || some_settle (e ∷ endings)) (
          end_each same equal is_kept handle x
            (e ∷ endings)
            (shared handle x queue claims committed))
  unfolding end_each some_settle is_replayed
  ended [] claims committed b fails h g r =
      subst
        (λ stays.
          Holds stays
            (rollback_play_now_preserve equal handle x (shared handle x queue claims committed)))
        (sym (or_false b)) (last_rollback claims committed b h g)
  ended [] claims committed b (settles now) h g r =
      subst
        (λ stays. Holds stays (
          settle_play_now_preserve same is_kept (some handle) now
            (shared handle x queue claims committed)))
        (sym (or_true b)) (last_settle now claims committed h (ground (arith, r)))
  ended (e ∷ endings) claims committed b fails h g r =
      subst
        (λ p.
          Holds (b || some_settle (e ∷ endings))
            (end_each same equal is_kept handle x (e ∷ endings) p))
        (sym (more_rollback claims committed (length endings) h))
        (ended endings (Dict.put claims handle (suc (length endings))) committed b e
          (put_claims claims (suc (length endings))) g r)
  ended (e ∷ endings) claims committed b (settles now) h g r =
      subst (λ p. Holds (b || true) (end_each same equal is_kept handle x (e ∷ endings) p))
        (sym (more_settle now claims committed (length endings) h (ground (arith, r))))
        (subst
          (λ stays. Holds stays (
            end_each same equal is_kept handle x (e ∷ endings) (
              shared handle x queue (Dict.put claims handle (suc (length endings)))
                (Dict.put committed handle true))))
          (sym (or_true b))
          (ended endings (Dict.put claims handle (suc (length endings)))
            (Dict.put committed handle true) true e (put_claims claims (suc (length endings)))
            (put_committed committed) (ground (arith, r))))

-- Plays that share one preserved entry at the front of the queue, each of which ends once, in any
-- order, with no settled one being the preserved item again: where all of them fail the entry leaves
-- the queue, and where some play settles it stays; either way the rest of the queue is as it was,
-- and no claim and no commitment on the entry is left.
pub end_each-IsSettled :
    {A : Type 0} (same equal : A → A → Bool) (is_kept : A → Bool) (handle : ℕ) (x : A)
    (queue : List (ℕ × A)) (claims : Dict.Dict ℕ ℕ) (committed : Dict.Dict ℕ Bool) (e : Ending A)
    (endings : List (Ending A))
    → claims_of (Dict.get claims handle) ≡ length (e ∷ endings)
    → Dict.has_key committed handle ≡ false
    → is_replayed same x (e ∷ endings) ≡ false
    → IsSettled handle (if some_settle (e ∷ endings) then (handle, x) ∷ queue else queue) (
        end_each same equal is_kept handle x (e ∷ endings) (shared handle x queue claims committed))
end_each-IsSettled same equal is_kept handle x queue claims committed e endings h g r =
    ended same equal is_kept handle x queue endings claims committed false e h g r
