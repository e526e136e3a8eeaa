-- ===== src/Adapter/HidParser/Classify.antt =====
-- Types of reports, and how they are found again.
use blue_retro_forever.Prelude.{
  ℕ, zero, suc, ◌+◌, ◌*◌, ◌<◌, ◌≤◌, ◌≡◌, ◌≢◌, ◌⊎◌, refl, Bool, true, false, arith, ◌==◌,
  if◌then◌else◌, Option, some, none, update, for_range, for_range_inv, ap, sym, ◌∙◌, ◌-◌,
  Bool-cases, inl, inr,
}
use native.Mathlib.Decide.{ℕ_discrete}
use blue_retro_forever.Adapter.Ids.{hid_max_report}
use blue_retro_forever.Adapter.HidParser.Types.{HidReport, BtData, rumble}
use blue_retro_forever.Adapter.HidParser.Usage.{one_of}
use blue_retro_forever.Adapter.HidParser.Report.{
  hid_report_fingerprint, hid_patch_report, vcs_usage, hid_process_report, patch_usages,
}
use blue_retro_forever.Adapter.HidParser.Parse.{matches, find_report, hid_parser_get_report}

-- The entries of a patched report.
patched-usages : (n : ℕ) (r : HidReport) (k : ℕ) → k < n → (patch_usages n r).usages k ≡ vcs_usage k
unfolding patch_usages
patched-usages n r =
    for_range_inv (λ i f. (k : ℕ) → k < i → f k ≡ vcs_usage k) (λ i f. update f i (vcs_usage i)) n 0
      n r.usages (omega arith) (λ i f a b h k lt. ground (arith, h k))
      (λ k lt. absurd (omega arith))

patched-rumble :
    (r : HidReport)
    → (hid_report_fingerprint (patch_usages 4 r) ≡ rumble)
      × (hid_report_fingerprint (patch_usages 8 r) ≡ rumble)
unfolding hid_report_fingerprint patch_usages one_of for_range
patched-rumble r = (refl, refl)

hid_patch_report-vcs :
    (d : BtData) (r : HidReport)
    → d.vid ≡ 0x3250
    → (d.pid ≡ 0x1001) ⊎ (d.pid ≡ 0x1002)
    → r.id ≡ 1
    → r.tag ≡ 1
    → hid_patch_report d r ≡ patch_usages (if d.pid == 0x1001 then 4 else 8) r
unfolding hid_patch_report
hid_patch_report-vcs d r vid pid id tag = ground arith

-- The output report 1 of an Atari VCS controller, whatever usages the device described, is patched to
-- four entries for the classic controller and eight for the modern one, of one byte each from offset 0
-- on, and its type is rumble.
pub vcs_report-rumble :
    (d : BtData) (r : HidReport)
    → d.vid ≡ 0x3250
    → (d.pid ≡ 0x1001) ⊎ (d.pid ≡ 0x1002)
    → r.id ≡ 1
    → r.tag ≡ 1
    → let q = (hid_process_report d r).1 in
      (q.type ≡ rumble)
      × (q.usage_cnt ≡ (if d.pid == 0x1001 then 4 else 8))
      × ((k : ℕ)
          → k < q.usage_cnt
          → ((q.usages k).bit_offset ≡ k * 8) × ((q.usages k).bit_size ≡ 8))
unfolding hid_process_report
vcs_report-rumble d r vid pid id tag =
    rw (hid_patch_report-vcs d r vid pid id tag) (by_count (d.pid == 0x1001))
  where
    by_count :
        (b : Bool)
        → let p = patch_usages (if b then 4 else 8) r in
          (hid_report_fingerprint p ≡ rumble)
          × (p.usage_cnt ≡ (if b then 4 else 8))
          × ((k : ℕ)
              → k < p.usage_cnt
              → ((p.usages k).bit_offset ≡ k * 8) × ((p.usages k).bit_size ≡ 8))
    by_count true = (
      (patched-rumble r).0,
      unfold patch_usages in refl,
      λ k lt. rw (patched-usages 4 r k (unfold patch_usages in lt)) (refl, refl),
    )
    by_count false = (
      (patched-rumble r).1,
      unfold patch_usages in refl,
      λ k lt. rw (patched-usages 8 r k (unfold patch_usages in lt)) (refl, refl),
    )

-- Entry `j` is the first match among the `n` entries from `k` on, and it is `r`.
record IsFirst (reports : ℕ → Option HidReport) (id n k : ℕ) (r : HidReport) (j : ℕ) : Type 0 where
  from : k ≤ j
  below : j < k + n
  there : reports j ≡ some r
  fits : matches id (some r) ≡ true
  first : (i : ℕ) → k ≤ i → i < j → matches id (reports i) ≡ false

later :
    (reports : ℕ → Option HidReport) (id n k : ℕ) (r : HidReport) (j : ℕ)
    → matches id (reports k) ≡ false
    → IsFirst reports id n (k + 1) r j
    → IsFirst reports id (suc n) k r j
later reports id n k r j skipped h = record {
  from = omega (arith, h.from);
  below = omega (arith, h.below);
  there = h.there;
  fits = h.fits;
  first = λ i a b. elim (ℕ_discrete k i) [
    | yes same ↦ rw (← same) skipped
    | no differ ↦ h.first i (omega arith) b
  ];
}

find_report-IsFirst :
    (reports : ℕ → Option HidReport) (id n k : ℕ) (r : HidReport)
    → find_report reports id n k ≡ some r
    → (j : ℕ) × IsFirst reports id n k r j
unfolding find_report
find_report-IsFirst reports id zero k r e = cc
find_report-IsFirst reports id (suc n) k r e = elim (Bool-cases (matches id (reports k))) [
  | inl yes_here ↦
      let here : reports k ≡ some r =
        ap (λ b. if b then reports k else find_report reports id n (k + 1)) (sym yes_here) ∙ e in
      (
        k,
        record {
          from = omega arith;
          below = omega arith;
          there = here;
          fits = ap (matches id) (sym here) ∙ yes_here;
          first = λ i a b. absurd (omega arith);
        },
      )
  | inr not_here ↦
      let rest =
        find_report-IsFirst reports id n (k + 1) r (
          ap (λ b. if b then reports k else find_report reports id n (k + 1)) (sym not_here) ∙ e) in
      (rest.0, later reports id n k r rest.0 not_here rest.1)
]

find_report-none :
    (reports : ℕ → Option HidReport) (id n k j : ℕ)
    → find_report reports id n k ≡ none
    → k ≤ j
    → j < k + n
    → matches id (reports j) ≡ false
unfolding find_report
find_report-none reports id zero k j e a b = absurd (omega arith)
find_report-none reports id (suc n) k j e a b = elim (ℕ_discrete k j) [
  | yes same ↦ rw (← same) (ground arith)
  | no differ ↦ find_report-none reports id n (k + 1) j (ground arith) (omega arith) (omega arith)
]

fits_parts :
    (id : ℕ) (r : HidReport) → matches id (some r) ≡ true → (r.id ≡ id) × (r.tag ≡ 0) × (r.len ≢ 0)
fits_parts id r h = ground arith

-- An entry that is an input report with the identifier holds nothing.
abbrev pub IsPassed : ℕ → Option HidReport → Type 0
IsPassed id o = (r : HidReport) → o ≡ some r → r.id ≡ id → r.tag ≡ 0 → r.len ≡ 0

passed : (id : ℕ) (o : Option HidReport) → matches id o ≡ false → IsPassed id o
passed id o h r e same input = empty (sym (ap (matches id) e) ∙ h)
  where
    empty : matches id (some r) ≡ false → r.len ≡ 0
    empty g = ground arith

-- Reading by identifier gives the first entry in the row of the device, of ten entries, that has the
-- identifier, is an input report and holds something; it gives none only if no entry of the row is
-- such a report.
pub hid_parser_get_report_lem :
    (reports : ℕ → Option HidReport) (dev id : ℕ)
    → ((r : HidReport)
        → hid_parser_get_report reports dev id ≡ some r
        → (j : ℕ) × (j < 10)
          × (reports (dev * 10 + j) ≡ some r)
          × (r.id ≡ id)
          × (r.tag ≡ 0)
          × (r.len ≢ 0)
          × ((i : ℕ) → i < j → IsPassed id (reports (dev * 10 + i))))
      × (hid_parser_get_report reports dev id ≡ none
          → (j : ℕ) → j < 10
          → IsPassed id (reports (dev * 10 + j)))
unfolding hid_parser_get_report
hid_parser_get_report_lem reports dev id = (
  λ r e.
      let (j, h) = find_report-IsFirst reports id hid_max_report (dev * hid_max_report) r e in
      let parts = fits_parts id r h.fits in
      let at : dev * 10 + (j - dev * 10) ≡ j = omega (arith, h.from) in
      (
        j - dev * 10,
        omega (arith, h.from, h.below),
        ap reports at ∙ h.there,
        parts.0,
        parts.1,
        parts.2,
        λ i lt.
            passed id (reports (dev * 10 + i))
              (h.first (dev * 10 + i) (omega arith) (omega (arith, at))),
      ),
  λ e j lt. passed id (reports (dev * 10 + j)) (
      find_report-none reports id hid_max_report (dev * hid_max_report) _ e (omega arith)
        (omega arith)),
)
