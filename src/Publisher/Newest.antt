-- ===== src/Publisher/Newest.antt =====
-- The file holds the newest snapshot of which a write succeeded, in whatever order writes end.
use relaytv.Prelude.{
  ℕ, suc, ◌≤◌, ◌≡◌, inl, inr, refl, Bool, true, false, Option, none, some, List, [], ◌∷◌, arith,
  ltb, ◌==◌, if◌then◌else◌, length, Option-cases,
}
use relaytv.Publisher.{Publisher, Outcome, stored, refused, reserve, write, publish}

-- What the callers of one publisher did so far: the snapshots taken with their versions, the newest
-- first, and the versions whose `publish` returned true.
pub record Scene (A : Type 0) : Type 0 where
  pub publisher : Publisher A
  pub snapshots : List A
  pub landed : List ℕ

-- A mutation takes a snapshot and a version under the lock of its store; later, and in any order,
-- each snapshot is published.
pub data Event (A : Type 0) : Type 0 where
  taking : A → Event A
  publishing : ℕ → Outcome → Event A

abbrev pub if_landed : Bool → ℕ → List ℕ → List ℕ
if_landed true v vs = v ∷ vs
if_landed false v vs = vs

-- The newest version that landed; 0 where none did.
unfoldable pub newest : List ℕ → ℕ
newest [] = 0
newest (v ∷ vs) = let old = newest vs in if ltb old v then v else old

module _ {A : Type 0} where
  -- The snapshot that was taken with a version.
  unfoldable pub snapshot : ℕ → List A → Option A
  snapshot v [] = none
  snapshot v (x ∷ xs) = let older = snapshot v xs in if v == suc (length xs) then some x else older

  unfoldable pub take_snapshot : A → Scene A → Scene A
  take_snapshot x c = record c { publisher = (reserve c.publisher).1; snapshots = x ∷ c.snapshots }

  unfoldable pub publish_snapshot : ℕ → A → Outcome → Scene A → Scene A
  publish_snapshot v x o c =
      let (ok, p) = publish v x o c.publisher in
      record c { publisher = p; landed = if_landed ok v c.landed }

  -- Only a version that was taken is published.
  unfoldable pub happen : Event A → Scene A → Scene A
  happen (taking x) c = take_snapshot x c
  happen (publishing v o) c = elim (snapshot v c.snapshots) [
    | none ↦ c
    | some x ↦ publish_snapshot v x o c
  ]

  unfoldable pub happen_all : List (Event A) → Scene A → Scene A
  happen_all [] c = c
  happen_all (e ∷ es) c = happen_all es (happen e c)

  -- The file as it was, until a snapshot landed.
  abbrev pub holds : Option A → ℕ → List A → Option A
  holds old v xs = if v == 0 then old else snapshot v xs

  -- What the scene looks like after any events, from a file `old`.
  pub record Settled (old : Option A) (c : Scene A) : Type 0 where
    pub version : c.publisher.version ≡ length c.snapshots
    pub written : c.publisher.written ≡ newest c.landed
    pub bounded : newest c.landed ≤ length c.snapshots
    pub file : c.publisher.file ≡ holds old (newest c.landed) c.snapshots

  snapshot_bounded : (v : ℕ) (xs : List A) {x : A} → snapshot v xs ≡ some x → v ≤ length xs
  unfolding snapshot
  snapshot_bounded v [] h = cc
  snapshot_bounded v (y ∷ ys) {x = x} h = ground (arith, snapshot_bounded v ys {x = x})

  take_snapshot-Settled :
      (old : Option A) (x : A) (c : Scene A) → Settled old c → Settled old (take_snapshot x c)
  unfolding take_snapshot reserve snapshot
  take_snapshot-Settled old x c s = record {
    version = ground (arith, s.version);
    written = s.written;
    bounded = omega (arith, s.bounded);
    file = ground (arith, s.file, s.bounded);
  }

  publish_snapshot-Settled :
      (old : Option A) (v : ℕ) (x : A) (o : Outcome) (c : Scene A)
      → snapshot v c.snapshots ≡ some x
      → Settled old c
      → Settled old (publish_snapshot v x o c)
  unfolding publish_snapshot publish write newest
  publish_snapshot-Settled old v x stored c h s =
      let b = snapshot_bounded v c.snapshots h in
      record {
        version = ground (arith, s.version);
        written = ground (arith, s.written);
        bounded = ground (arith, s.bounded);
        file = ground (arith, s.file, s.written, h);
      }
  publish_snapshot-Settled old v x (refused now error) c h s = record {
    version = ground (arith, s.version);
    written = ground (arith, s.written);
    bounded = ground (arith, s.bounded);
    file = ground (arith, s.file);
  }

  happen-Settled :
      (old : Option A) (e : Event A) (c : Scene A) → Settled old c → Settled old (happen e c)
  unfolding happen
  happen-Settled old (taking x) c s = take_snapshot-Settled old x c s
  happen-Settled old (publishing v o) c s = elim (Option-cases (snapshot v c.snapshots)) [
    | inl h ↦ rw (h, happen) s
    | inr (x, h) ↦ rw (h, happen) (publish_snapshot-Settled old v x o c h s)
  ]

  happen_all-Settled :
      (old : Option A) (es : List (Event A)) (c : Scene A)
      → Settled old c
      → Settled old (happen_all es c)
  unfolding happen_all
  happen_all-Settled old [] c s = s
  happen_all-Settled old (e ∷ es) c s =
      happen_all-Settled old es (happen e c) (happen-Settled old e c s)

  -- A process that has just started, over the file that it finds.
  abbrev pub started : Option A → Scene A
  started old = record {
    publisher = record { version = 0; written = 0; file = old; failing = none };
    snapshots = [];
    landed = [];
  }

  -- However snapshots are taken and published after a start, in any order and with any failures of
  -- the disk, the version counts the snapshots, and the file holds the snapshot of the newest version of
  -- which a write succeeded, or what it held at the start where none did.
  pub happen_all-newest :
      (old : Option A) (es : List (Event A)) → Settled old (happen_all es (started old))
  unfolding newest
  happen_all-newest old es =
      happen_all-Settled old es (started old)
        (record { version = refl; written = refl; bounded = omega arith; file = refl })
