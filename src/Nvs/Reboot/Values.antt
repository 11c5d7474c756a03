-- ===== src/Nvs/Reboot/Values.antt =====
-- What a restart publishes for an entry: the value of the last point that came for it over the bus.
use zephyr_siot.Base.{◌^◌, ◌<◌, ◌≡◌, ap, ◌∙◌, Bool, true, false, List, [], ◌∷◌, ◌++◌, take}
use zephyr_siot.Base.Int.{pos, IsInt, is_negative}
use zephyr_siot.CString.{Bytes, cstr}
use zephyr_siot.Point.{
  Point, IsPoint, type_float, type_int, type_string, point_get_int, point_get_float,
}
use zephyr_siot.Json.PointJs.RoundTrip.{IsTerminated}
use zephyr_siot.Nvs.{
  Zms, Flash, NvsPoint, Nvs, point_type_key_to_nvs_id, restore, nvs_init, nvs_store_handle_point,
  nvs_store_thread,
}
use mathlib.Core.Path.{subst}
use zephyr_siot.Nvs.Sent.{Sent, IsOf, Sent-IsOf, restore-Sent}
use zephyr_siot.Nvs.Thread.{ZmsKeeps, IsUntouched, thread-id}
use zephyr_siot.Nvs.Laws.{ZmsLaws, restore-int, restore-float}
use zephyr_siot.Nvs.Text.{restore-string}
use zephyr_siot.Nvs.Reboot.{ZmsMounts, IsWorking, IsElsewhere, reboot_lem}

-- The entry of a point: it has the name of the point, and the name leads to it.
pub record IsEntry (pts : List NvsPoint) (n : NvsPoint) (p : Point) : Type 0 where
  pub leads_to : point_type_key_to_nvs_id pts p.type p.key ≡ pos n.nvs_id
  pub same_type : cstr n.def_type ≡ cstr p.type
  pub same_key : cstr n.key ≡ cstr p.key

module _ (zms : Zms) (laws : ZmsLaws zms) (keeps : ZmsKeeps zms) (mounts : ZmsMounts zms)
    (flash : Flash) (v : Nvs zms) (before behind : List (Bool × Point)) (p : Point)
    (pts1 pts2 : List NvsPoint) (n : NvsPoint) (bufs : List NvsPoint → Bytes)
    (working : IsWorking flash) (split : v.pts ≡ pts1 ++ n ∷ pts2)
    (once : IsElsewhere n.nvs_id pts1) (later : IsUntouched zms keeps v.pts n.nvs_id behind)
    (mounted : (zms.mount (nvs_store_thread zms v (before ++ (true, p) ∷ behind)).fs).1 ≡ pos 0)
    (vp : IsPoint p) (ends : IsTerminated p) (entry : IsEntry v.pts n p) where
  -- The start returns 0 and publishes a point of the name of `p` for which `P` holds, between the points of
  -- the entries before and behind its own.
  abbrev pub Republished : (Point → Type 0) → Type 0
  Republished P =
      let off = nvs_store_thread zms v (before ++ (true, p) ∷ behind) in
      let on = nvs_init zms flash (record off { pts = [] }) v.pts bufs in
      (on.ret ≡ pos 0)
      × ((r : Point) × (sent1 : List Point) × (sent2 : List Point) × (on.published
            ≡ sent1 ++ (r ∷ sent2))
          × (Sent pts1 sent1)
          × (Sent pts2 sent2)
          × (IsOf n r)
          × (cstr r.type ≡ cstr p.type)
          × (cstr r.key ≡ cstr p.key)
          × P r)

  -- Where the last point was stored.
  abbrev at : Nvs zms
  at = nvs_store_thread zms v before

  leads : point_type_key_to_nvs_id at.pts p.type p.key ≡ pos n.nvs_id
  leads = thread-id zms keeps v before p ∙ entry.leads_to

  republished :
      (P : Point → Type 0)
      → ((q : Point) (buf : Bytes)
          → IsPoint q
          → let (fs, r, sent) = restore zms (nvs_store_handle_point zms at p).fs q buf n in
            (sent ≡ r ∷ []) × (cstr r.type ≡ cstr p.type) × (cstr r.key ≡ cstr p.key) × P r)
      → Republished P
  republished P k =
      let (ret, (q, buf, sent1, sent2, vq, s1, s2, all)) =
        reboot_lem zms keeps flash v before behind p pts1 pts2 n bufs mounts working split once
          later mounted in
      let (sent, type, key, holds) = k q buf vq in
      let here =
        subst (Sent (n ∷ [])) sent
          (restore-Sent zms (nvs_store_handle_point zms at p).fs q buf n vq).1 in
      (
        ret,
        (
          _,
          sent1,
          sent2,
          all ∙ ap (λ x. sent1 ++ (x ++ sent2)) sent,
          s1,
          s2,
          Sent-IsOf here,
          type,
          key,
          holds,
        ),
      )

  -- After a restart `nvs_init` returns 0, and among the points that it publishes is one with the name
  -- of an INT entry and the value of the last point that came for the entry over the bus, whatever
  -- points came before it, and for other entries behind it; the points before and behind it are of the
  -- entries before and behind, in order. That point is well formed with strings that end inside their
  -- fields, it could be written, no entry before this one has its identifier, the flash works, and the
  -- file system can be mounted, reads back what was written and keeps the other entries.
  pub nvs_init-thread_int :
      p.data_type ≡ type_int
      → IsInt (point_get_int p)
      → n.def_data_type ≡ type_int
      → is_negative (zms.write (nvs_store_thread zms v before).fs n.nvs_id (take 4 p.payload)).1
        ≡ false
      → Republished (λ r. (r.data_type ≡ type_int) × (point_get_int r ≡ point_get_int p))
  nvs_init-thread_int e i dt ok =
      republished (λ r. (r.data_type ≡ type_int) × (point_get_int r ≡ point_get_int p))
        λ q buf vq.
          let (sent, type, key, kind, value) =
            restore-int zms laws at p q n buf vp vq ends e i leads entry.same_type entry.same_key dt
              ok in
          (sent, type, key, (kind, value))

  -- After a restart `nvs_init` returns 0, and among the points that it publishes is one with the name
  -- of a FLOAT entry and the 32 bits of the value of the last point that came for the entry over the
  -- bus, whatever points came before it, and for other entries behind it; the points before and behind
  -- it are of the entries before and behind, in order. That point is well formed with strings that end
  -- inside their fields, it could be written, no entry before this one has its identifier, the flash
  -- works, and the file system can be mounted, reads back what was written and keeps the other entries.
  pub nvs_init-thread_float :
      p.data_type ≡ type_float
      → point_get_float p < 2 ^ 32
      → n.def_data_type ≡ type_float
      → is_negative (zms.write (nvs_store_thread zms v before).fs n.nvs_id (take 4 p.payload)).1
        ≡ false
      → Republished (λ r. (r.data_type ≡ type_float) × (point_get_float r ≡ point_get_float p))
  nvs_init-thread_float e i dt ok =
      republished (λ r. (r.data_type ≡ type_float) × (point_get_float r ≡ point_get_float p))
        λ q buf vq.
          let (sent, type, key, kind, value) =
            restore-float zms laws at p q n buf vp vq ends e i leads entry.same_type entry.same_key
              dt ok in
          (sent, type, key, (kind, value))

  -- After a restart `nvs_init` returns 0, and among the points that it publishes is one with the name
  -- of a STRING entry and the text of the last point that came for the entry over the bus, whatever
  -- points came before it, and for other entries behind it; the points before and behind it are of the
  -- entries before and behind, in order. That point is well formed with strings that end inside their
  -- fields, it could be written, no entry before this one has its identifier, the flash works, and the
  -- file system can be mounted, reads back what was written and keeps the other entries.
  pub nvs_init-thread_string :
      p.data_type ≡ type_string
      → n.def_data_type ≡ type_string
      → is_negative
          (zms.write (nvs_store_thread zms v before).fs n.nvs_id (cstr p.payload ++ 0 ∷ [])).1
        ≡ false
      → Republished (λ r. (r.data_type ≡ type_string) × (cstr r.payload ≡ cstr p.payload))
  nvs_init-thread_string e dt ok =
      republished (λ r. (r.data_type ≡ type_string) × (cstr r.payload ≡ cstr p.payload))
        λ q buf vq.
          let (sent, type, key, kind, value) =
            restore-string zms laws at p q n buf vp vq ends e leads entry.same_type entry.same_key
              dt ok in
          (sent, type, key, (kind, value))
