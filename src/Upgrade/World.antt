-- ===== src/Upgrade/World.antt =====
-- What the upgrade tool of cpp-sdk-http-bridge-linux/src/windows-upgrade.cpp changes: four directories
-- beside each other, the two services that it knows, and the marks that tell its rollback how far it got.
use hik_hcnet_http_bridge.Common.{ℕ, Bool, ◌&&◌, not, List, Option, none, some, has_value}
use hik_hcnet_http_bridge.Text.{Bytes}
use hik_hcnet_http_bridge.Error.{err, other_exception}
use hik_hcnet_http_bridge.Effect.{Effect, ◌>>=◌, modify, lift, look, unless, on_part}

-- The files of a directory, each with its path and its bytes.
abbrev pub Directory : Type 0
Directory = List (Bytes × Bytes)

pub data Place : Type 0 where
  target backup staged failed : Place

-- native_name and managed_name
pub data ServiceName : Type 0 where
  native_name managed_name : ServiceName

pub data Kind : Type 0 where
  native managed : Kind

-- What CreateServiceW and ChangeServiceConfigW set.
pub record ServiceConfig : Type 0 where
  pub command : Bytes
  pub display : Bytes
  pub account : Bytes
  pub group : Bytes
  pub dependencies : List Bytes
  pub type : ℕ
  pub start : ℕ
  pub error : ℕ

pub record Settings : Type 0 where
  pub config : ServiceConfig
  pub delayed : Bool
  pub description : Bytes
  pub failures : Bytes
  pub failure_flag : Bool

pub record Registration : Type 0 where
  pub settings : Settings
  pub running : Bool

pub record Snapshot : Type 0 where
  pub name : ServiceName
  pub kind : Kind
  pub settings : Settings
  pub running : Bool

pub record World : Type 0 where
  pub target_directory : Option Directory
  pub backup_directory : Option Directory
  pub staged_directory : Option Directory
  pub failed_directory : Option Directory
  pub native_service : Option Registration
  pub managed_service : Option Registration
  pub moved : Bool
  pub installed : Bool

abbrev pub directory : Place → World → Option Directory
directory target w = w.target_directory
directory backup w = w.backup_directory
directory staged w = w.staged_directory
directory failed w = w.failed_directory

abbrev pub put_directory : Place → Option Directory → World → World
put_directory target d w = record w { target_directory = d }
put_directory backup d w = record w { backup_directory = d }
put_directory staged d w = record w { staged_directory = d }
put_directory failed d w = record w { failed_directory = d }

abbrev pub pick {ℓ} : {A : Type ℓ} → ServiceName → A → A → A
pick native_name x y = x
pick managed_name x y = y

abbrev pub service : ServiceName → World → Option Registration
service name w = pick name w.native_service w.managed_service

abbrev pub put_service : ServiceName → Option Registration → World → World
put_service name r w = record w {
  native_service = pick name r w.native_service;
  managed_service = pick name w.managed_service r;
}

-- if (!test) throw std::runtime_error(...)
unfoldable pub require : {S : Type 0} → Bool → Effect S (Unit {0})
require test = unless test (lift (err other_exception))

-- Calls that work on one service.
unfoldable pub on_service :
    {A : Type 0} → ServiceName → Effect (Option Registration) A → Effect World A
on_service name m = on_part (service name) (put_service name) m

unfoldable pub move : Option Directory → Place → Place → Effect World (Unit {0})
move none from to = lift (err other_exception)
move (some d) from to = modify λ w. put_directory to (some d) (put_directory from none w)

-- fs::rename of a directory: it fails where there is none or the other name is taken, and may fail
-- otherwise.
unfoldable pub rename : Bool → Place → Place → Effect World (Unit {0})
unfolding require move
rename fine from to = do
  free ← look (λ w. not (has_value (directory to w))) λ free. require (fine && free)
  look (directory from) λ found. move found from to
