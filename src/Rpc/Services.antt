-- ===== src/Rpc/Services.antt =====
-- bootcfg/rpc/grpc.go: the gRPC server, as the services that are registered with it and the TLS
-- config of its credentials. The interfaces of the services are those of bootcfg/rpc/rpcpb.
use coreos_baremetal.Prelude.{Option, List}
use coreos_baremetal.Prelude.Text.{Text}
use coreos_baremetal.Storagepb.Json.{Group, Profile}
use coreos_baremetal.Server.{Core, Labels}
use coreos_baremetal.Rpc.{
  Status, group_put, group_get, group_list, profile_put, profile_get, profile_list, select_group,
  select_profile, ignition_put, cloud_put,
}

pub record GroupsServer (State : Type 0) : Type 0 where
  pub group_put : State → Group → State × Option Status
  pub group_get : State → Text → Option Group × Option Status
  pub group_list : State → Option (List Group) × Option Status

pub record ProfilesServer (State : Type 0) : Type 0 where
  pub profile_put : State → Profile → State × Option Status
  pub profile_get : State → Text → Option Profile × Option Status
  pub profile_list : State → Option (List Profile) × Option Status

pub record SelectServer (State : Type 0) : Type 0 where
  pub select_group : State → Labels → Option Group × Option Status
  pub select_profile : State → Labels → Option Profile × Option Status

pub record IgnitionServer (State : Type 0) : Type 0 where
  pub ignition_put : State → Text → Text → State × Option Status

pub record CloudServer (State : Type 0) : Type 0 where
  pub cloud_put : State → Text → Text → State × Option Status

-- `grpc.Server` with its credentials, `none` where there are no TLS credentials.
pub record GrpcServer (State Tls : Type 0) : Type 0 where
  pub credentials : Option Tls
  pub groups : GroupsServer State
  pub profiles : ProfilesServer State
  pub cloud : CloudServer State
  pub select : SelectServer State
  pub ignition : IgnitionServer State

module _ (core : Core) where
  -- `newGroupServer`
  abbrev pub new_group_server : GroupsServer core.State
  new_group_server = record {
    group_put = group_put core;
    group_get = group_get core;
    group_list = group_list core;
  }

  -- `newProfileServer`
  abbrev pub new_profile_server : ProfilesServer core.State
  new_profile_server = record {
    profile_put = profile_put core;
    profile_get = profile_get core;
    profile_list = profile_list core;
  }

  -- `newSelectServer`
  abbrev pub new_select_server : SelectServer core.State
  new_select_server = record {
    select_group = select_group core;
    select_profile = select_profile core;
  }

  -- `newIgnitionServer`
  abbrev pub new_ignition_server : IgnitionServer core.State
  new_ignition_server = record { ignition_put = ignition_put core }

  -- `newCloudServer`
  abbrev pub new_cloud_server : CloudServer core.State
  new_cloud_server = record { cloud_put = cloud_put core }

  -- `NewServer`
  abbrev pub new_server : {Tls : Type 0} → Option Tls → GrpcServer core.State Tls
  new_server tls = record {
    credentials = tls;
    groups = new_group_server;
    profiles = new_profile_server;
    cloud = new_cloud_server;
    select = new_select_server;
    ignition = new_ignition_server;
  }
