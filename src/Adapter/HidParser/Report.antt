-- ===== src/Adapter/HidParser/Report.antt =====
-- A finished report of hid_parser.c: its patch, its type and its place in the device.
use blue_retro_forever.Prelude.{
  ℕ, zero, suc, ◌+◌, ◌*◌, ◌&&◌, ◌||◌, Option, none, some, List, [], ◌∷◌, leb, ◌==◌, if◌then◌else◌,
  meets, update, for_range, get_or,
}
use blue_retro_forever.Adapter.HidParser.Types.{
  ReportType, report_none, kb, mouse, pad, rumble, ◌is◌, HidUsage, HidReport, zero_usage, BtData,
}
use blue_retro_forever.Adapter.HidParser.Usage.{one_of}

-- What the loop of `hid_report_fingerprint` does at a usage: return, leave the loop, or go on with a
-- type.
pub data Verdict : Type 0 where
  found : ReportType → Verdict
  leave : Verdict
  more : ReportType → Verdict

-- The `switch` on the page. 0x01 is USAGE_GEN_DESKTOP, 0x07 the keyboard, 0x09 the buttons, 0x0f PID.
unfoldable pub fingerprint_step : HidUsage → ReportType → Verdict
unfolding one_of
fingerprint_step u type =
    if u.usage_page == 0
    then leave
    else (if u.usage_page == 0x01
        then (if u.usage == 0x30 || u.usage == 0x31
            then (if meets u.flags 0x04 then found mouse else found pad)
            else (if u.usage == 0x39
                then found pad
                else (if u.usage == 0x85 then found mouse else more type)))
        else (if u.usage_page == 0x07
            then more kb
            else (if u.usage_page == 0x09
                then more pad
                else (if u.usage_page == 0x0f
                    then (if (leb 0x95 u.usage && leb u.usage 0x9c)
                          || one_of (0x50 ∷ 0x70 ∷ 0x7c ∷ 0xa7 ∷ []) u.usage
                        then found rumble
                        else more type)
                    else more type))))

-- The loop with `n` usages left from index `i`.
unfoldable pub fingerprint_from : (ℕ → HidUsage) → ℕ → ℕ → ReportType → ReportType
fingerprint_from usages zero i type = type
fingerprint_from usages (suc n) i type = elim (fingerprint_step (usages i) type) [
  | found t ↦ t
  | leave ↦ type
  | more t ↦ fingerprint_from usages n (i + 1) t
]

unfoldable pub hid_report_fingerprint : HidReport → ReportType
unfolding fingerprint_from fingerprint_step
hid_report_fingerprint r = fingerprint_from r.usages r.usage_cnt 0 report_none

-- The usages of the rumble report of an Atari VCS controller: the low, then the high frequency motor.
abbrev pub vcs_usages : List ℕ
vcs_usages = 0x70 ∷ 0x50 ∷ 0xa7 ∷ 0x7c ∷ 0x70 ∷ 0x50 ∷ 0xa7 ∷ 0x7c ∷ []

-- Entry `i` of the patched report.
abbrev pub vcs_usage : ℕ → HidUsage
vcs_usage i = record zero_usage {
  usage_page = 0x0f;
  usage = get_or vcs_usages i 0;
  logical_min = 0;
  logical_max = 0xff;
  bit_size = 8;
  bit_offset = i * 8;
}

unfoldable pub patch_usages : ℕ → HidReport → HidReport
patch_usages usage_cnt r = record r {
  usage_cnt = usage_cnt;
  usages = for_range usage_cnt 0 (λ i f. update f i (vcs_usage i)) r.usages;
}

unfoldable pub hid_patch_report : BtData → HidReport → HidReport
unfolding patch_usages for_range
hid_patch_report d r =
    if d.vid == 0x3250 && (r.id == 1 && r.tag == 1)
    then (if d.pid == 0x1001
        then patch_usages 4 r
        else (if d.pid == 0x1002 then patch_usages 8 r else r))
    else r

abbrev pub claim :
    ReportType → HidReport → (ReportType → Option HidReport) → ReportType → Option HidReport
claim t r reports = elim (reports t) [
  | none ↦ λ k. if k is t then some r else reports k
  | some _ ↦ reports
]

-- The device after a report, and the report as it is stored. The first output report of a type is
-- taken.
unfoldable pub hid_process_report : BtData → HidReport → BtData × HidReport
unfolding hid_patch_report hid_report_fingerprint
hid_process_report d r =
    let p = hid_patch_report d r in
    let t = hid_report_fingerprint p in
    let q = record p { type = t } in
    (
      if t is report_none
          then d
          else (if q.tag == 1 then record d { reports = claim t q d.reports } else d),
      q,
    )
