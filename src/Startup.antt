-- ===== src/Startup.antt =====
-- The start of the system: the points of `bus_init` of lib/zbus.c and of `nvs_init` of lib/nvs.c reach the
-- cache of lib/point-cache.c.
use mathlib.Core.Path.{subst}
use zephyr_siot.Base.{
  ℕ, zero, suc, ◌+◌, ◌≤◌, ◌≡◌, ◌≢◌, refl, ap, sym, ◌∙◌, Bool, true, false, Option, none, some, List,
  [], ◌∷◌, ◌++◌, take, length, length-append, if◌then◌else◌, arith,
}
use zephyr_siot.Base.Int.{pos, IsInt, is_negative}
use zephyr_siot.CString.{Bytes, cstr, first}
use zephyr_siot.CString.Laws.{cstr-first}
use zephyr_siot.Point.{Point, IsPoint, type_int, point_get_int, is_empty, is_unknown}
use zephyr_siot.Point.Merge.{default_key}
use zephyr_siot.Point.Merge.Scan.{or_else}
use zephyr_siot.Point.Merge.View.{is_usable, has_name, has_name_self, lookup}
use zephyr_siot.Point.Merge.View.Keeps.{is_usable-default_key}
use zephyr_siot.Point.Merge.View.Latest.{latest}
use zephyr_siot.Point.Merge.View.Order.{AreUsable, free, AreMerged-free}
use zephyr_siot.SiotString.Float.{Floats}
use zephyr_siot.Cache.{initial}
use zephyr_siot.Cache.Laws.{zeros_lem}
use zephyr_siot.Cache.Shell.{point_cache_thread}
use zephyr_siot.Cache.Shell.Laws.{received, messages, received-messages}
use zephyr_siot.Cache.Shell.Latest.{point_cache_thread-latest}
use zephyr_siot.Json.PointJs.RoundTrip.{IsTerminated}
use zephyr_siot.Nvs.{Zms, Flash, NvsPoint, Nvs, nvs_init, nvs_store_thread}
use zephyr_siot.Nvs.Laws.{ZmsLaws}
use zephyr_siot.Nvs.Thread.{ZmsKeeps, IsUntouched}
use zephyr_siot.Nvs.Sent.{
  Sent, nothing, skipped, sent, IsOf, AreNamed, AreOther, IsOf-default_key, Sent-append,
  Sent-AreUsable, Sent-latest,
}
use zephyr_siot.Nvs.Reboot.{ZmsMounts, IsWorking, IsElsewhere}
use zephyr_siot.Nvs.Reboot.Values.{IsEntry, Republished, nvs_init-thread_int}
use zephyr_siot.Zbus.{bus_init, IsTextPoint, bus_init-IsTextPoint}

-- What the bus carries at the start, in order, if `nvs_init` publishes some points.
abbrev pub on_bus : Bytes → Bytes → Bytes → List Point → List Point
on_bus board version_extended version restored = bus_init board version_extended version ++ restored

AreUsable-append : (ps qs : List Point) → AreUsable ps → AreUsable qs → AreUsable (ps ++ qs)
AreUsable-append [] qs a b = b
AreUsable-append (p ∷ ps) qs (v, u, a) b = (v, u, AreUsable-append ps qs a b)

or_else_assoc : (a b c : Option Point) → or_else a (or_else b c) ≡ or_else (or_else a b) c
or_else_assoc none b c = refl
or_else_assoc (some x) b c = refl

or_else-none : (a : Option Point) → or_else a none ≡ a
or_else-none none = refl
or_else-none (some x) = refl

latest-append :
    (t k : Bytes) (ps qs : List Point)
    → latest t k (ps ++ qs) ≡ or_else (latest t k qs) (latest t k ps)
unfolding latest
latest-append t k [] qs = sym (or_else-none (latest t k qs))
latest-append t k (p ∷ ps) qs =
    ap (λ o. or_else o (if has_name t k (default_key p) then some (default_key p) else none))
      (latest-append t k ps qs)
    ∙ sym (or_else_assoc (latest t k qs) (latest t k ps) _)

length-Sent : {pts : List NvsPoint} {ps : List Point} → Sent pts ps → length ps ≤ length pts
length-Sent nothing = omega arith
length-Sent (skipped n s) = omega (arith, length-Sent s)
length-Sent (sent n r i s) = omega (arith, length-Sent s)

free_initial : (n : ℕ) → free (initial n).slots ≡ n
unfolding free is_empty first
free_initial zero = refl
free_initial (suc n) = omega (arith, free_initial n)

AreNamed-append :
    (pts1 pts2 : List NvsPoint) → AreNamed (pts1 ++ pts2) → AreNamed pts1 × AreNamed pts2
AreNamed-append [] pts2 h = (tt, h)
AreNamed-append (n ∷ pts1) pts2 (t, k, h) =
    let (a, b) = AreNamed-append pts1 pts2 h in ((t, k, a), b)

text-usable :
    (c : ℕ) (t v : Bytes) (p : Point) → IsTextPoint (c ∷ t) v p → is_usable (default_key p) ≡ true
text-usable c t v p i =
    let typed : first p.type ≢ 0 =
      λ z. let e : [] ≡ c ∷ take 22 t = sym (cstr-first p.type z) ∙ i.named in cc in
    is_usable-default_key p
    ∙ (unfold is_usable is_empty is_unknown in ground (arith, i.typed, typed))

bus_init-AreUsable :
    (board version_extended version : Bytes)
    → AreUsable (bus_init board version_extended version)
      × (length (bus_init board version_extended version) ≡ 2)
bus_init-AreUsable board version_extended version =
    let (p1, p2, e, one, two) = bus_init-IsTextPoint board version_extended version in
    rw e
      ((one.sizes, text-usable _ _ board p1 one, (two.sizes, text-usable _ _ _ p2 two, tt)), refl)

-- The point that is restored for a name is the last one of the name on the bus, if no entry behind its own
-- has the name.
latest-on_bus :
    (t k : Bytes) (first_points : List Point) {pts2 : List NvsPoint} {sent2 : List Point}
    (sent1 : List Point) (n : NvsPoint) (r : Point)
    → IsOf n r
    → first n.key ≢ 0
    → cstr r.type ≡ t
    → cstr r.key ≡ k
    → Sent pts2 sent2
    → AreNamed pts2
    → AreOther t k pts2
    → latest t k (first_points ++ (sent1 ++ (r ∷ sent2))) ≡ some r
latest-on_bus t k first_points {sent2 = sent2} sent1 n r i keyed et ek s named other =
    let name : has_name t k r ≡ true =
      subst (λ x. has_name x k r ≡ true) et
        (subst (λ x. has_name (cstr r.type) x r ≡ true) ek (has_name_self r)) in
    let last : latest t k (r ∷ sent2) ≡ some r =
      unfold latest in
      rw (Sent-latest t k s named other, IsOf-default_key n r i keyed, name) refl in
    latest-append t k first_points (sent1 ++ (r ∷ sent2))
    ∙ ap (λ o. or_else o (latest t k first_points)) (latest-append t k sent1 (r ∷ sent2))
    ∙ (rw last refl)

module _ (zms : Zms) (laws : ZmsLaws zms) (keeps : ZmsKeeps zms) (mounts : ZmsMounts zms)
    (flash : Flash) (v : Nvs zms) (before behind : List (Bool × Point)) (p : Point)
    (pts1 pts2 : List NvsPoint) (n : NvsPoint) (bufs : List NvsPoint → Bytes)
    (working : IsWorking flash) (split : v.pts ≡ pts1 ++ n ∷ pts2)
    (once : IsElsewhere n.nvs_id pts1) (later : IsUntouched zms keeps v.pts n.nvs_id behind)
    (mounted : (zms.mount (nvs_store_thread zms v (before ++ (true, p) ∷ behind)).fs).1 ≡ pos 0)
    (vp : IsPoint p) (ends : IsTerminated p) (entry : IsEntry v.pts n p) (fl : Floats)
    (has_shell : Bool) (raw board version_extended version : Bytes) (size : ℕ) where
  -- The cache of the started system holds a point of the name of `p` for which `P` holds.
  abbrev pub Cached : (Point → Type 0) → Type 0
  Cached P =
      let off = nvs_store_thread zms v (before ++ (true, p) ∷ behind) in
      let on = nvs_init zms flash (record off { pts = [] }) v.pts bufs in
      let bus = on_bus board version_extended version on.published in
      let c = (point_cache_thread fl has_shell raw (initial size) (messages bus)).0 in
      (r : Point) × (lookup (cstr p.type) (cstr p.key) c.slots ≡ some r) × P r

  cached :
      (P : Point → Type 0)
      → Republished zms laws keeps mounts flash v before behind p pts1 pts2 n bufs working split
          once later mounted vp ends entry P
      → AreNamed v.pts
      → AreOther (cstr p.type) (cstr p.key) pts2
      → length v.pts + 2 ≤ size
      → Cached P
  cached P (ret, (r, sent1, sent2, all, s1, s2, i, et, ek, holds)) named other room =
      let off = nvs_store_thread zms v (before ++ (true, p) ∷ behind) in
      let on = nvs_init zms flash (record off { pts = [] }) v.pts bufs in
      let bus = on_bus board version_extended version on.published in
      let (named1, (_, keyed, named2)) =
        AreNamed-append pts1 (n ∷ pts2) (subst AreNamed split named) in
      let restored : Sent (pts1 ++ n ∷ pts2) (sent1 ++ (r ∷ sent2)) =
        Sent-append s1 (sent n r i s2) in
      let (boot, two) = bus_init-AreUsable board version_extended version in
      let usable : AreUsable bus =
        AreUsable-append (bus_init board version_extended version) on.published boot
          (subst AreUsable (sym all) (Sent-AreUsable restored (subst AreNamed split named))) in
      let fits : length bus ≤ free (initial size).slots = omega (
        arith,
        room,
        two,
        free_initial size,
        length-append (bus_init board version_extended version) on.published,
        ap length all,
        ap length split,
        length-Sent restored,
      ) in
      let got = received-messages bus in
      let merged =
        AreMerged-free (initial size).slots (received (messages bus)) (zeros_lem size).0
          (zeros_lem size).1 (subst AreUsable (sym got) usable)
          (subst (λ ps. length ps ≤ free (initial size).slots) (sym got) fits) in
      (
        r,
        point_cache_thread-latest fl has_shell raw (cstr p.type) (cstr p.key) (initial size)
              (messages bus) (zeros_lem size).0 (zeros_lem size).1 merged
            ∙ ap
                (λ ps.
                  or_else (latest (cstr p.type) (cstr p.key) ps)
                    (lookup (cstr p.type) (cstr p.key) (initial size).slots))
                (got ∙ ap (λ ps. bus_init board version_extended version ++ ps) all)
            ∙ (rw
                (latest-on_bus (cstr p.type) (cstr p.key) (bus_init board version_extended version)
                  sent1 n r i keyed et ek s2 named2 other)
                refl),
        holds,
      )

  -- After a restart the cache holds the value of the last point that came for an INT entry before it, under
  -- the name of that point. The conditions are those of `nvs_init`; besides, no entry has a blank type or
  -- key, no entry behind this one has its name, and the cache has a slot for each entry and two more.
  pub startup_int :
      p.data_type ≡ type_int
      → IsInt (point_get_int p)
      → n.def_data_type ≡ type_int
      → is_negative (zms.write (nvs_store_thread zms v before).fs n.nvs_id (take 4 p.payload)).1
        ≡ false
      → AreNamed v.pts
      → AreOther (cstr p.type) (cstr p.key) pts2
      → length v.pts + 2 ≤ size
      → Cached (λ r. (r.data_type ≡ type_int) × (point_get_int r ≡ point_get_int p))
  startup_int e i dt ok named other room =
      cached (λ r. (r.data_type ≡ type_int) × (point_get_int r ≡ point_get_int p))
        (nvs_init-thread_int zms laws keeps mounts flash v before behind p pts1 pts2 n bufs working
          split once later mounted vp ends entry e i dt ok)
        named other room
