-- ===== src/Dashboard/Panels.antt =====
-- example/collect.go: the panels of the page.
use systats.Dashboard.Render.{Gauge, Bar, Segment}
use systats.Go.Float.{Float64}
use systats.Go.Outcome.{Error}
use systats.Prelude.Int.{ℤ}
use systats.Prelude.Text.{Text}
use systats.Prelude.{ℕ, Bool, Option, List}

-- The error stands for its text.
pub record Problem : Type 0 where
  pub panel : Text
  pub err : Error

pub record HostPanel : Type 0 where
  pub is_ok : Bool
  pub hostname : Text
  pub os_name : Text
  pub kernel : Text
  pub uptime : Text
  pub time_zone : Text
  pub logged_in_users : ℕ

pub record PanelRow : Type 0 where
  pub label : Text
  pub value : Text

pub record NetworkPanel : Type 0 where
  pub interface : Text
  pub state : Text
  pub up : Bool
  pub ip : Text
  pub ipv6 : Text
  pub mac : Text
  pub rx_total : Text
  pub tx_total : Text
  pub rx_rate : Text
  pub tx_rate : Text
  pub packets : Text

module _ (fl : Float64) where
  open fl use {F}

  pub record CpuPanel : Type 0 where
    pub is_ok : Bool
    pub gauge : Gauge fl
    pub cores : List (Bar fl)
    pub sockets : ℕ
    pub model : Text
    pub cores_label : Text
    pub load1 : Text
    pub load5 : Text
    pub load15 : Text

  pub record GaugePanel : Type 0 where
    pub is_ok : Bool
    pub gauge : Gauge fl
    pub used : Text
    pub total : Text
    pub free : Text
    pub detail : Text
    pub present : Bool

  pub record ContainerPanel : Type 0 where
    pub memory_limited : Bool
    pub memory_limit : Text
    pub memory_host : Text
    pub memory_gauge : Gauge fl
    pub cpu_limited : Bool
    pub allocated_cores : Text
    pub cpu_gauge : Gauge fl
    pub host_cores : ℕ

  pub record ContainerMountRow : Type 0 where
    pub mount_point : Text
    pub bar : Bar fl
    pub usage : Text

  pub record ContainerCard : Type 0 where
    pub name : Text
    pub short_id : Text
    pub image : Text
    pub runtime : Text
    pub state : Text
    pub running : Bool
    pub cpu_gauge : Gauge fl
    pub mem_gauge : Gauge fl
    pub cpu : Text
    pub memory : Text
    pub rx_rate : Text
    pub tx_rate : Text
    pub read : Text
    pub write : Text
    pub pids : Bar fl
    pub throttled : Text
    pub oom_kills : ℕ
    pub layer : Text
    pub mounts : List ContainerMountRow
    pub notes : List Text

  pub record PressureRow : Type 0 where
    pub name : Text
    pub some_bars : List (Bar fl)
    pub full_bars : List (Bar fl)
    pub full_available : Bool
    pub some_total : Text

  pub record PressurePanel : Type 0 where
    pub available : Bool
    pub note : Text
    pub limited : Bool
    pub resources : List PressureRow

  pub record DiskPanel : Type 0 where
    pub device : Text
    pub mounted_on : Text
    pub fs_type : Text
    pub used_pct : F
    pub bar : Bar fl
    pub used : Text
    pub size : Text
    pub available : Text
    pub inode_pct : Text
    pub inode_usage : Text

  pub record DiskIoPanel : Type 0 where
    pub device : Text
    pub read_rate : Text
    pub write_rate : Text
    pub iops : Text
    pub util : Bar fl
    pub in_flight : ℕ

  pub record TcpPanel : Type 0 where
    pub is_ok : Bool
    pub total : ℕ
    pub segments : List (Segment fl)
    pub rows : List PanelRow

  pub record TempPanel : Type 0 where
    pub chip : Text
    pub label : Text
    pub celsius : Text
    pub gauge : Gauge fl
    pub limits : Text
    pub critical : Bool

  pub record ProcessRow : Type 0 where
    pub pid : ℤ
    pub name : Text
    pub user : Text
    pub state : Text
    pub threads : ℤ
    pub cpu : Text
    pub cpu_bar : Bar fl
    pub mem : Text
    pub mem_bar : Bar fl
    pub open_fds : Text
    pub exec_path : Text

  pub record Dashboard : Type 0 where
    pub generated_at : Text
    pub elapsed : Text
    pub host : HostPanel
    pub cpu : CpuPanel
    pub memory : GaugePanel
    pub swap : GaugePanel
    pub container : Option ContainerPanel
    pub containers : List ContainerCard
    pub containers_note : Text
    pub pressure : PressurePanel
    pub disks : List DiskPanel
    pub disk_io : List DiskIoPanel
    pub networks : List NetworkPanel
    pub tcp : TcpPanel
    pub temps : List TempPanel
    pub processes : List ProcessRow
    pub problems : List Problem
