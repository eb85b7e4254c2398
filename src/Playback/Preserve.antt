-- ===== src/Playback/Preserve.antt =====
-- Keeping the interrupted playback at the front of the queue: `preserve_current_to_queue_front`,
-- `rollback_play_now_preserve` and `settle_play_now_preserve` of playback_service.py, with
-- `_PRESERVE_CLAIMS` and `_PRESERVE_COMMITTED`. Python's `id(item)` is the handle of an entry, and
-- `committed` has the handles that are in the set.
pub mod Claims
use relaytv.Prelude.{
  nat_eq, ℕ, suc, zero, ◌+◌, ◌-◌, Bool, true, false, ◌&&◌, ◌||◌, not, Option, none, some, List, [],
  ◌∷◌, ◌==◌, ltb, if◌then◌else◌,
}
use relaytv.Prelude.Dict

pub record Preserved (A : Type 0) : Type 0 where
  pub queue : List (ℕ × A)
  pub claims : Dict.Dict ℕ ℕ
  pub committed : Dict.Dict ℕ Bool

abbrev pub claims_of : Option ℕ → ℕ
claims_of none = 0
claims_of (some n) = n

unfoldable pub claims_on : {A : Type 0} → ℕ → Preserved A → ℕ
unfolding Dict.get
claims_on handle p = claims_of (Dict.get p.claims handle)

module _ {A : Type 0} where
  -- A copy of what plays, under a handle that no entry has.
  unfoldable pub insert_preserved : ℕ → A → Preserved A → Preserved A
  unfolding Dict.put Dict.pop
  insert_preserved handle copy p = record p {
    queue = (handle, copy) ∷ p.queue;
    claims = Dict.put p.claims handle 1;
    committed = Dict.pop p.committed handle;
  }

  abbrev pub or_insert :
      ℕ → A → Preserved A → Option (Option ℕ × Preserved A) → Option ℕ × Preserved A
  or_insert handle copy p none = (some handle, insert_preserved handle copy p)
  or_insert handle copy p (some answer) = answer

  unfoldable pub give_back : ℕ → Preserved A → Preserved A
  unfolding claims_on Dict.put Dict.pop
  give_back handle p =
      let remaining = claims_on handle p - 1 in
      if ltb 0 remaining
      then record p {
        claims = Dict.put p.claims handle remaining;
        committed = Dict.put p.committed handle true;
      }
      else record p { claims = Dict.pop p.claims handle; committed = Dict.pop p.committed handle }

  abbrev pub give_back_if : Option ℕ → Preserved A → Preserved A
  give_back_if none p = p
  give_back_if (some handle) p = give_back handle p

-- `equal` is Python's `==` on entries.
module _ {A : Type 0} (equal : A → A → Bool) where
  -- A play that failed gives its claim back: with the last one the entry leaves the front.
  abbrev pub drop_front : ℕ → A → List (ℕ × A) → List (ℕ × A)
  drop_front handle preserved [] = []
  drop_front handle preserved ((h, x) ∷ queue) =
      if h == handle || equal x preserved then queue else (h, x) ∷ queue

  unfoldable pub rollback_play_now_preserve : ℕ → A → Preserved A → Preserved A
  unfolding claims_on Dict.put Dict.pop Dict.has_key
  rollback_play_now_preserve handle preserved p =
      let remaining = claims_on handle p - 1 in
      let claims = Dict.pop p.claims handle in
      if ltb 0 remaining
      then record p { claims = Dict.put p.claims handle remaining }
      else if Dict.has_key p.committed handle
      then record p { claims = claims; committed = Dict.pop p.committed handle }
      else record p { claims = claims; queue = drop_front handle preserved p.queue }

-- `same` is `same_playback_item`, and `is_kept` tells whether an entry is marked as preserved.
module _ {A : Type 0} (same : A → A → Bool) (is_kept : A → Bool) where
  -- What a play finds at the front: an entry to share, one that is in the way, or neither.
  unfoldable pub share_head : A → List (ℕ × A) → Preserved A → Option (Option ℕ × Preserved A)
  unfolding claims_on Dict.has_key Dict.put
  share_head now [] p = none
  share_head now ((handle, x) ∷ queue) p =
      let shared = record p { claims = Dict.put p.claims handle (suc (claims_on handle p)) } in
      if not (is_kept x)
      then none
      else if (ltb 0 (claims_on handle p) && not (Dict.has_key p.committed handle)) && same now x
      then some (some handle, shared)
      else some (none, p)

  -- The last critical section of `preserve_current_to_queue_front`, for the item `now` that plays.
  unfoldable pub commit_preserve : ℕ → A → A → Preserved A → Option ℕ × Preserved A
  unfolding share_head insert_preserved
  commit_preserve handle now copy p = or_insert handle copy p (share_head now p.queue p)

  -- The head leaves where it is the item that plays now.
  unfoldable pub drop_redundant : A → List (ℕ × A) → Preserved A → Preserved A
  unfolding Dict.pop
  drop_redundant now [] p = p
  drop_redundant now ((h, x) ∷ queue) p =
      if is_kept x && same x now
      then record {
        queue = queue;
        claims = Dict.pop p.claims h;
        committed = Dict.pop p.committed h;
      }
      else p

  unfoldable pub settle_play_now_preserve : Option ℕ → A → Preserved A → Preserved A
  unfolding give_back drop_redundant
  settle_play_now_preserve preserved now p =
      let given = give_back_if preserved p in drop_redundant now given.queue given
