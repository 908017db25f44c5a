-- ===== src/Container/Types.antt =====
-- container.go and container_layer.go: what is reported of a container.
use systats.Config.{SizeUnit}
use systats.Go.Float.{Float64}
use systats.Prelude.Int.{ℤ}
use systats.Prelude.Text.{Text}
use systats.Prelude.{ℕ, Bool, List}
use systats.Pressure.{Pressure}
use systats.Stats.{Dict}

pub record ContainerInterface : Type 0 where
  pub interface : Text
  pub rx_bytes : ℕ
  pub tx_bytes : ℕ
  pub rx_packets : ℕ
  pub tx_packets : ℕ
  pub rx_errors : ℕ
  pub tx_errors : ℕ
  pub rx_dropped : ℕ
  pub tx_dropped : ℕ

pub record ContainerNetwork : Type 0 where
  pub interfaces : List ContainerInterface
  pub shares_host_network : Bool
  pub accessible : Bool

pub record ContainerBlockIo : Type 0 where
  pub device : Text
  pub major : ℕ
  pub minor : ℕ
  pub read_bytes : ℕ
  pub write_bytes : ℕ
  pub reads : ℕ
  pub writes : ℕ

pub record ContainerPids : Type 0 where
  pub current : ℕ
  pub max : ℕ
  pub limited : Bool

module _ (fl : Float64) where
  open fl use {F, of_ℕ}

  pub record ContainerCpu : Type 0 where
    pub cores_used : F
    pub percent_of_host : F
    pub percent_of_limit : F
    pub limited : Bool
    pub allocated_cores : F
    pub usage_seconds : F
    pub user_seconds : F
    pub system_seconds : F
    pub periods : ℕ
    pub throttled_periods : ℕ
    pub throttled_seconds : F

  pub record ContainerMemory : Type 0 where
    pub used : F
    pub limit : F
    pub limited : Bool
    pub percentage_used : F
    pub anon : F
    pub file : F
    pub swap : F
    pub oom_kills : ℕ
    pub unit : SizeUnit

  pub record ContainerMount : Type 0 where
    pub mount_point : Text
    pub device : Text
    pub fs_type : Text
    pub total : F
    pub used : F
    pub available : F
    pub unit : SizeUnit
    pub inodes : ℕ
    pub inodes_used : ℕ
    pub inodes_available : ℕ
    pub accessible : Bool

  pub record ContainerLayer : Type 0 where
    pub size : F
    pub unit : SizeUnit
    pub files : ℕ
    pub path : Text
    pub available : Bool

  pub record Container : Type 0 where
    pub id : Text
    pub short_id : Text
    pub name : Text
    pub image : Text
    pub labels : Dict Text
    pub state : Text
    pub runtime : Text
    pub pod_uid : Text
    pub metadata_available : Bool
    pub cgroup_path : Text
    pub pid : ℤ
    pub cpu : ContainerCpu
    pub memory : ContainerMemory
    pub network : ContainerNetwork
    pub block_io : List ContainerBlockIo
    pub mounts : List ContainerMount
    pub layer : ContainerLayer
    pub pids : ContainerPids
    pub pressure : Pressure fl
    pub time : ℕ

  pub record ContainerRates : Type 0 where
    pub id : Text
    pub rx_bytes_per_sec : F
    pub tx_bytes_per_sec : F
    pub rx_packets_per_sec : F
    pub tx_packets_per_sec : F
    pub read_bytes_per_sec : F
    pub write_bytes_per_sec : F
    pub reads_per_sec : F
    pub writes_per_sec : F
    pub cpu_throttled_per_sec : F
    pub cpu_throttled_sec_per_sec : F
