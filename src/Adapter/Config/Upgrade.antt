-- ===== src/Adapter/Config/Upgrade.antt =====
-- The upgrade from version 2, `config_v2_update` of config.c.
use blue_retro_forever.Prelude.{
  ℕ, ◌+◌, ◌*◌, ◌-◌, ◌≤◌, ◌<◌, ◌≡◌, ◌⊎◌, refl, ap, ◌∙◌, inl, arith, u8, update, update_self,
  for_range, for_range_inv,
}
use blue_retro_forever.Adapter.Ids.{wired_max_dev, br_combo_cnt}
use blue_retro_forever.Adapter.Config.Layout.{
  Mem, in_cfg, map_size, map_cfg, adapter_mapping_max, set_magic, magic, config_magic,
}
use blue_retro_forever.Adapter.Config.Init.{put_combos}
use blue_retro_forever.Adapter.Config.Load.{Env, Cfg, v2_device, config_v2_update}
use blue_retro_forever.Adapter.Config.Bytes.{IsRow, combo_src, combo_dst, put_combos-IsRow}
use blue_retro_forever.Adapter.Config.Store.{
  config_store_on_file-mem, set_magic-outside, magic-set_magic, magic-first,
}
use blue_retro_forever.Adapter.Config.Append.{IsAppended, Before, v2_device-Before}

-- If every device has room for ten more mappings, the upgrade from version 2 sets the magic number of
-- version 3, keeps the global and output settings, and appends the ten combos to the mappings of
-- every device, which are kept.
pub config_v2_update-appends :
    (env : Env) (c : Cfg)
    → ((d : ℕ) → d < wired_max_dev → c.mem (map_size d) + br_combo_cnt ≤ adapter_mapping_max)
    → (magic (config_v2_update env c).mem ≡ config_magic)
      × ((a : ℕ) → 4 ≤ a → a < in_cfg 0 → (config_v2_update env c).mem a ≡ c.mem a)
      × ((d : ℕ)
          → d < wired_max_dev
          → IsAppended c.mem (config_v2_update env c).mem d (c.mem (map_size d)))
unfolding config_v2_update
config_v2_update-appends env c room = rw stored (
  magic-first m0 t (λ a lt. rest a (inl (omega arith)))
      ∙ magic-set_magic config_magic c.mem (omega arith),
  (λ a le lt. rest a (inl lt) ∙ far a le),
  λ d lt.
      let h = done d lt in
      let e = far (map_size d) (omega arith) in
      rw (← e) (record {
        counted = h.counted;
        kept = λ o lo ne. h.kept o lo ne ∙ far (in_cfg d + o) (omega arith);
        added = h.added;
      }),
)
  where
    m0 : Mem
    m0 = set_magic config_magic c.mem

    t : Mem
    t = for_range wired_max_dev 0 v2_device m0

    stored : (config_v2_update env c).mem ≡ t
    stored = config_store_on_file-mem env (record c { mem = t })

    far : (a : ℕ) → 4 ≤ a → m0 a ≡ c.mem a
    far a le = set_magic-outside config_magic c.mem a le

    room' : (d : ℕ) → d < wired_max_dev → m0 (map_size d) + br_combo_cnt ≤ adapter_mapping_max
    room' d lt = rw (far (map_size d) (omega arith)) (room d lt)

    all : Before m0 wired_max_dev t
    all =
        for_range_inv (Before m0) v2_device wired_max_dev 0 wired_max_dev m0 refl
          (λ i s _ lt h. v2_device-Before m0 i s (room' i lt) (λ d l. room' d (omega arith)) h)
          ((λ d lt. absurd (omega arith)), (λ a out. refl))

    done : (d : ℕ) → d < wired_max_dev → IsAppended m0 t d (m0 (map_size d))
    done = let (h, _) = all in h

    rest : (a : ℕ) → (a < in_cfg 0) ⊎ (in_cfg wired_max_dev ≤ a) → t a ≡ m0 a
    rest = let (_, h) = all in h

-- With more than 118 mappings, and no more than the 128 there is room for, the upgrade of a device
-- counts all of them, more than there is room for, and a combo overwrites the header of the next device,
-- whose number of mappings becomes the number of this device.
pub v2_device-overrun :
    (i : ℕ) (m : Mem)
    → i < wired_max_dev
    → adapter_mapping_max < m (map_size i) + br_combo_cnt
    → m (map_size i) ≤ adapter_mapping_max
    → (v2_device i m (map_size i) ≡ m (map_size i) + br_combo_cnt)
      × (v2_device i m (map_size (i + 1)) ≡ i)
unfolding v2_device
v2_device-overrun i m lt over most = (
  row.outside (map_size i) (omega arith) ∙ update_self m (map_size i) _ ∙ omega arith,
  ap t address ∙ row.inside (128 - n) 2 (omega arith) (omega arith),
)
  where
    n : ℕ
    n = m (map_size i)

    t : Mem
    t = put_combos i n (update m (map_size i) (u8 (n + br_combo_cnt)))

    row :
        IsRow combo_src combo_dst i
          (map_cfg i n)
          br_combo_cnt
          (update m (map_size i) (u8 (n + br_combo_cnt)))
          t
    row = put_combos-IsRow i n (update m (map_size i) (u8 (n + br_combo_cnt)))

    address : map_size (i + 1) ≡ map_cfg i n + 8 * (128 - n) + 2
    address = omega arith
