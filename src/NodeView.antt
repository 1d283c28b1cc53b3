-- ===== src/NodeView.antt =====
-- internal/metrics: the view of a node's last report, with the fields that the alerts read. `F` is
-- the type of the floats. A pointer or a slice that may be nil is an `Option`.
use ithiltir.Shared.{ℕ, Bool, Option, List}
use ithiltir.Shared.Text.{Text}
use ithiltir.Shared.Int.{ℤ}

pub record Observation : Type 0 where
  pub received_at : Text
  pub observed_at : Text
  pub sent_at : Text
  pub stale_after_sec : ℤ

pub record CpuLoad (F : Type 0) : Type 0 where
  pub l1 : F
  pub l5 : F
  pub l15 : F

pub record Cpu (F : Type 0) : Type 0 where
  pub usage_ratio : F
  pub load : CpuLoad F
  pub cores_physical : ℤ
  pub cores_logical : ℤ

pub record Memory (F : Type 0) : Type 0 where
  pub used_bytes : ℤ
  pub used_ratio : F

pub record DiskMount (F : Type 0) : Type 0 where
  pub mountpoint : Text
  pub used_ratio : F

pub record DiskSmartAttr : Type 0 where
  pub when_failed : Text

pub record DiskSmartDevice (F : Type 0) : Type 0 where
  pub health : Option Text
  pub temp_c : Option F
  pub critical_warning : Option ℕ
  pub failing_attrs : Option (List DiskSmartAttr)

pub record DiskSmart (F : Type 0) : Type 0 where
  pub devices : List (DiskSmartDevice F)

pub record Disk (F : Type 0) : Type 0 where
  pub mounts : List (DiskMount F)
  pub smart : Option (DiskSmart F)

pub record NetTotal (F : Type 0) : Type 0 where
  pub recv_bps : F
  pub sent_bps : F

pub record RaidArray : Type 0 where
  pub failed : ℤ
  pub health : Text

pub record Raid : Type 0 where
  pub available : Bool
  pub arrays : List RaidArray

pub record ThermalSensor (F : Type 0) : Type 0 where
  pub temp_c : Option F

pub record Thermal (F : Type 0) : Type 0 where
  pub sensors : List (ThermalSensor F)

pub record NodeView (F : Type 0) : Type 0 where
  pub observation : Observation
  pub cpu : Cpu F
  pub memory : Memory F
  pub disk : Disk F
  -- Network.Total
  pub network_total : NetTotal F
  -- Connections.TCP
  pub tcp : ℤ
  pub raid : Option Raid
  pub thermal : Option (Thermal F)
