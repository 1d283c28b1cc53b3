-- ===== src/AlertSpec/Extract.antt =====
-- The registry of metrics: how each one is read from a node's view, and the operators.
use Prim.Native.Nat.{ℕ, suc, ◌+◌}
use ithiltir.Shared.{Bool, true, false, not, ◌&&◌, Option, none, some, List, [], ◌∷◌}
use ithiltir.Shared.Tests.{◌==◌, if◌then◌else◌, nat_eq}
use ithiltir.Shared.Text.{Text, codes, text_eq, trim_space, to_lower, equal_fold}
use ithiltir.Shared.Maps.{lookup}
use ithiltir.Shared.Int.{ℤ, pos, pos_part, ltb_ℤ}
use ithiltir.Shared.Float.{Float}
use ithiltir.NodeView.{
  NodeView, DiskMount, DiskSmartDevice, DiskSmartAttr, RaidArray, ThermalSensor,
}

-- n > 0 for an int64.
abbrev pub is_pos : ℤ → Bool
is_pos n = ltb_ℤ (pos 0) n

unfoldable pub raid_array_unhealthy : Text → Bool
raid_array_unhealthy health =
    let h = to_lower (trim_space health) in not (h == []) && not (h == codes "healthy")

-- The loop of `raidFailed`; a sum of counts of disks does not reach the end of int.
unfoldable pub count_failed : ℕ → List RaidArray → ℕ
count_failed n [] = n
count_failed n (a ∷ arrays) =
    count_failed
      (if is_pos a.failed
        then n + pos_part a.failed
        else if raid_array_unhealthy a.health
        then suc n
        else n)
      arrays

count_failing_attrs : ℕ → List DiskSmartAttr → ℕ
count_failing_attrs n [] = n
count_failing_attrs n (a ∷ attrs) =
    count_failing_attrs
      (if equal_fold (trim_space a.when_failed) (codes "FAILING_NOW") then suc n else n) attrs

abbrev health_failed : Option Text → Bool
health_failed none = false
health_failed (some h) = equal_fold (trim_space h) (codes "failed")

module _ {F : Type 0} ⦃fl : Float F⦄ where
  abbrev of_count : ℕ → F
  of_count n = fl.of_int (pos n)

  unfoldable pub raid_failed : NodeView F → Option F
  unfolding count_failed
  raid_failed node = elim node.raid [
    | none ↦ none
    | some raid ↦ if raid.available then some (of_count (count_failed 0 raid.arrays)) else none
  ]

  count_smart_failed : ℕ → List (DiskSmartDevice F) → ℕ
  count_smart_failed n [] = n
  count_smart_failed n (d ∷ devices) =
      count_smart_failed (if health_failed d.health then suc n else n) devices

  unfoldable pub smart_failed : NodeView F → Option F
  unfolding count_smart_failed
  smart_failed node = elim node.disk.smart [
    | none ↦ none
    | some smart ↦ some (of_count (count_smart_failed 0 smart.devices))
  ]

  -- The counters `n` and `seen`.
  abbrev counted : ℕ × Bool → Option F
  counted (n, seen) = if seen then some (of_count n) else none

  count_critical : ℕ → Bool → List (DiskSmartDevice F) → ℕ × Bool
  count_critical n seen [] = (n, seen)
  count_critical n seen (d ∷ devices) = elim d.critical_warning [
    | none ↦ count_critical n seen devices
    | some w ↦ count_critical (if w == 0 then n else suc n) true devices
  ]

  unfoldable pub smart_critical_warning : NodeView F → Option F
  unfolding count_critical
  smart_critical_warning node = elim node.disk.smart [
    | none ↦ none
    | some smart ↦ counted (count_critical 0 false smart.devices)
  ]

  count_failing : ℕ → Bool → List (DiskSmartDevice F) → ℕ × Bool
  count_failing n seen [] = (n, seen)
  count_failing n seen (d ∷ devices) = elim d.failing_attrs [
    | none ↦ count_failing n seen devices
    | some attrs ↦ count_failing (count_failing_attrs n attrs) true devices
  ]

  unfoldable pub smart_attribute_failing : NodeView F → Option F
  unfolding count_failing count_failing_attrs
  smart_attribute_failing node = elim node.disk.smart [
    | none ↦ none
    | some smart ↦ counted (count_failing 0 false smart.devices)
  ]

  -- The greatest of the temperatures that are known: `max` and `ok`.
  abbrev pub hotter : Option F → Option F → Option F
  hotter best none = best
  hotter none (some t) = some t
  hotter (some m) (some t) = if fl.lt m t then some t else some m

  unfoldable pub max_smart_temp_c : Option F → List (DiskSmartDevice F) → Option F
  max_smart_temp_c best [] = best
  max_smart_temp_c best (d ∷ devices) = max_smart_temp_c (hotter best d.temp_c) devices

  unfoldable pub smart_max_temp_c : NodeView F → Option F
  unfolding max_smart_temp_c
  smart_max_temp_c node = elim node.disk.smart [
    | none ↦ none
    | some smart ↦ max_smart_temp_c none smart.devices
  ]

  max_sensor_temp_c : Option F → List (ThermalSensor F) → Option F
  max_sensor_temp_c best [] = best
  max_sensor_temp_c best (s ∷ sensors) = max_sensor_temp_c (hotter best s.temp_c) sensors

  unfoldable pub thermal_max_temp_c : NodeView F → Option F
  unfolding max_sensor_temp_c
  thermal_max_temp_c node = elim node.thermal [
    | none ↦ none
    | some thermal ↦ max_sensor_temp_c none thermal.sensors
  ]

  find_root : List (DiskMount F) → Option (DiskMount F)
  find_root [] = none
  find_root (m ∷ mounts) =
      let rest = find_root mounts in if trim_space m.mountpoint == codes "/" then some m else rest

  unfoldable pub pick_primary_mount : NodeView F → Option (DiskMount F)
  unfolding find_root
  pick_primary_mount node = elim (find_root node.disk.mounts) [
    | some m ↦ some m
    | none ↦ elim node.disk.mounts [ [] ↦ none | m ∷ _ ↦ some m ]
  ]

  abbrev primary_used_ratio : NodeView F → Option F
  primary_used_ratio node = elim (pick_primary_mount node) [
    | none ↦ none
    | some m ↦ some m.used_ratio
  ]

pub record MetricSpec (F : Type 0) : Type 0 where
  pub extract : NodeView F → Option F
  pub core_plus_allowed : Bool

module _ {F : Type 0} where
  abbrev plain : (NodeView F → Option F) → MetricSpec F
  plain f = record { extract = f; core_plus_allowed = false }

  abbrev with_core_plus : (NodeView F → Option F) → MetricSpec F
  with_core_plus f = record { extract = f; core_plus_allowed = true }

module _ {F : Type 0} ⦃fl : Float F⦄ where
  unfoldable pub metric_registry : List (Text × MetricSpec F)
  metric_registry =
      (codes "node.offline", plain (λ node. none))
      ∷ (codes "cpu.usage_ratio", plain (λ node. some node.cpu.usage_ratio))
      ∷ (codes "cpu.load1", with_core_plus (λ node. some node.cpu.load.l1))
      ∷ (codes "cpu.load5", with_core_plus (λ node. some node.cpu.load.l5))
      ∷ (codes "cpu.load15", with_core_plus (λ node. some node.cpu.load.l15))
      ∷ (codes "mem.used", plain (λ node. some (fl.of_int node.memory.used_bytes)))
      ∷ (codes "mem.used_ratio", plain (λ node. some node.memory.used_ratio))
      ∷ (codes "disk.usage.used_ratio", plain primary_used_ratio)
      ∷ (codes "disk.smart.failed", plain smart_failed)
      ∷ (codes "disk.smart.nvme.critical_warning", plain smart_critical_warning)
      ∷ (codes "disk.smart.attribute_failing", plain smart_attribute_failing)
      ∷ (codes "disk.smart.max_temp_c", plain smart_max_temp_c)
      ∷ (codes "net.recv_bps", plain (λ node. some node.network_total.recv_bps))
      ∷ (codes "net.sent_bps", plain (λ node. some node.network_total.sent_bps))
      ∷ (codes "conn.tcp", plain (λ node. some (fl.of_int node.tcp)))
      ∷ (codes "raid.failed", plain raid_failed)
      ∷ (codes "thermal.max_temp_c", plain thermal_max_temp_c)
      ∷ []

  unfoldable pub extract_metric_value : Text → NodeView F → Option F
  extract_metric_value name node = elim (lookup (trim_space name) metric_registry) [
    | none ↦ none
    | some spec ↦ spec.extract node
  ]

  unfoldable pub compare : Text → F → F → Bool
  compare operator value threshold =
      if operator == codes ">"
      then fl.lt threshold value
      else if operator == codes ">="
      then fl.le threshold value
      else if operator == codes "<"
      then fl.lt value threshold
      else if operator == codes "<="
      then fl.le value threshold
      else if operator == codes "=="
      then fl.eq value threshold
      else if operator == codes "!="
      then not (fl.eq value threshold)
      else false

  unfoldable pub resolve_cpu_cores : NodeView F → ℤ
  resolve_cpu_cores node =
      if is_pos node.cpu.cores_logical
      then node.cpu.cores_logical
      else if is_pos node.cpu.cores_physical
      then node.cpu.cores_physical
      else pos 0
