-- ===== src/UploadStore/Cleanup/Oldest.antt =====
-- The second pass deletes no more than it must.
use relaytv.Prelude.{zero, if_true, if_false, if_either, leb→le, subst, sym, leb}
use relaytv.Prelude.{strip}
use relaytv.UploadStore.Cleanup.{Cleaning}
use relaytv.UploadStore.Cleanup.{Disk}
use relaytv.UploadStore.Cleanup.{evict_one}
use relaytv.Prelude.{Bool}
use relaytv.UploadStore.Cleanup.{is_kept}
use relaytv.UploadStore.Cleanup.{delete_upload, Rmtree}
use relaytv.UploadStore.Cleanup.{evict}
use relaytv.UploadStore.Cleanup.{Listed}
use relaytv.Prelude.{Text}
use relaytv.Prelude.{
  codes_eq, inl, inr, ◌≡◌, refl, List, [], ◌∷◌, ◌⊎◌, ◌≤◌, ◌<◌, ◌+◌, ◌-◌, ℕ, suc, arith,
  if◌then◌else◌, take, length,
}

-- The uploads that may be deleted, in their order.
unfoldable pub victims : List Text → List Listed → List Listed
victims active [] = []
victims active (m ∷ ms) =
    let rest = victims active ms in if is_kept active m then rest else m ∷ rest

abbrev pub freed : List Listed → ℕ
freed [] = 0
freed (m ∷ ms) = m.size_bytes + freed ms

unfoldable pub delete_each : (Text → Bool) → Rmtree → List Listed → Disk → Disk
unfolding delete_upload
delete_each contained rmtree [] disk = disk
delete_each contained rmtree (m ∷ ms) disk =
    delete_each contained rmtree ms (delete_upload contained rmtree (strip m.id) disk)

-- The first `k` of the victims are deleted, and no fewer would do.
pub record IsShortest (contained : Text → Bool) (rmtree : Rmtree) (max_bytes : ℕ)
    (all : List Listed) (c c' : Cleaning) (k : ℕ) : Type 0 where
  pub deleted : c'.deleted ≡ c.deleted + k
  pub disk : c'.disk ≡ delete_each contained rmtree (take k all) c.disk
  pub total : c'.total ≡ c.total - freed (take k all)
  pub enough : (c'.total ≤ max_bytes) ⊎ (k ≡ length all)
  pub no_more : (k ≡ 0) ⊎ (max_bytes < c.total - freed (take (k - 1) all))

none_needed :
    (contained : Text → Bool) (rmtree : Rmtree) (max_bytes : ℕ) (all all' : List Listed)
    (c c' : Cleaning) (k : ℕ)
    → IsShortest contained rmtree max_bytes all c c' k
    → c.total ≤ max_bytes
    → IsShortest contained rmtree max_bytes all' c c' 0
unfolding delete_each
none_needed contained rmtree max_bytes all all' c c' k s h =
    let zero_needed : k ≡ 0 = elim s.no_more [
      | inl none_ ↦ none_
      | inr more ↦ absurd (omega (arith, more))
    ] in
    let disk = rw zero_needed at s.disk in
    let total = rw zero_needed at s.total in
    record {
      deleted = omega (arith, s.deleted);
      disk = disk;
      total = total;
      enough = inl (omega (arith, total));
      no_more = inl refl;
    }

more_yet :
    (max_bytes : ℕ) (all : List Listed) (m : Listed) (total k : ℕ)
    → max_bytes < total
    → (k ≡ 0) ⊎ (max_bytes < (total - m.size_bytes) - freed (take (k - 1) all))
    → max_bytes < total - freed (take (suc k - 1) (m ∷ all))
more_yet max_bytes all m total zero h g = omega (arith, h)
more_yet max_bytes all m total (suc k) h g = elim g [
  | inl none_ ↦ absurd (omega (arith, none_))
  | inr more ↦
      let outer : suc (suc k) - 1 ≡ suc k = omega arith in
      let inner : suc k - 1 ≡ k = omega arith in
      let more' = rw inner at more in rw outer (omega (arith, more'))
]

one_more :
    (contained : Text → Bool) (rmtree : Rmtree) (max_bytes : ℕ) (all : List Listed) (m : Listed)
    (c c' : Cleaning) (k : ℕ)
    → IsShortest contained rmtree max_bytes all
        (record c {
          disk = delete_upload contained rmtree (strip m.id) c.disk;
          deleted = suc c.deleted;
          total = c.total - m.size_bytes;
        })
        c'
        k
    → max_bytes < c.total
    → IsShortest contained rmtree max_bytes (m ∷ all) c c' (suc k)
unfolding delete_each
one_more contained rmtree max_bytes all m c c' k s h = record {
  deleted = omega (arith, s.deleted);
  disk = s.disk;
  total = omega (arith, s.total);
  enough = elim s.enough [ inl fits ↦ inl fits | inr every ↦ inr (omega (arith, every)) ];
  no_more = inr (more_yet max_bytes all m c.total k h s.no_more);
}

-- The second pass deletes the shortest beginning of the list of uploads that are neither active nor
-- without an id with which the total falls to the maximum, and all of them where none does.
pub evict-IsShortest :
    (contained : Text → Bool) (rmtree : Rmtree) (active : List Text) (max_bytes : ℕ)
    (ms : List Listed) (c : Cleaning)
    → (k : ℕ) × IsShortest contained rmtree max_bytes
        (victims active ms)
        c
        (evict contained rmtree active max_bytes ms c)
        k
unfolding evict evict_one victims delete_each
evict-IsShortest contained rmtree active max_bytes [] c = (
  0,
  record {
    deleted = omega arith;
    disk = refl;
    total = omega arith;
    enough = inr refl;
    no_more = inl refl;
  },
)
evict-IsShortest contained rmtree active max_bytes (m ∷ ms) c =
    let kept = evict-IsShortest contained rmtree active max_bytes ms c in
    let P : Cleaning → Type 0 = λ d.
      (k : ℕ) × IsShortest contained rmtree max_bytes (victims active (m ∷ ms)) c
        (evict contained rmtree active max_bytes ms d) k in
    if_either P (leb c.total max_bytes) _ _
      (λ small. (
        0,
        none_needed contained rmtree max_bytes (victims active ms) _ c _ kept.0 kept.1
            (leb→le c.total max_bytes small),
      ))
      (λ large.
        if_either P (is_kept active m) _ _
          (λ stays. (
            kept.0,
            subst
                (λ all.
                  IsShortest contained rmtree max_bytes all c
                    (evict contained rmtree active max_bytes ms c) kept.0)
                (sym (if_true (is_kept active m) (victims active ms) (m ∷ victims active ms) stays))
                kept.1,
          ))
          (λ goes.
            let d : Cleaning = record c {
              disk = delete_upload contained rmtree (strip m.id) c.disk;
              deleted = suc c.deleted;
              total = c.total - m.size_bytes;
            } in
            let rest = evict-IsShortest contained rmtree active max_bytes ms d in
            (
              suc rest.0,
              subst
                  (λ all.
                    IsShortest contained rmtree max_bytes all c
                      (evict contained rmtree active max_bytes ms d) (suc rest.0))
                  (sym
                    (if_false (is_kept active m) (victims active ms) (m ∷ victims active ms) goes))
                  (one_more contained rmtree max_bytes (victims active ms) m c _ rest.0 rest.1
                    (ground (arith, large))),
            )))
