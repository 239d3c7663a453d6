-- ===== src/Kube.antt =====
-- The Kubernetes API objects, cut down to the fields that the program reads. They are data that
-- the API server fills in; an absent field is `none`.
use rustern.Common.{Bool, List, Option, Text}

pub record ObjectMeta : Type 0 where
  pub name : Option Text
  pub namespace : Option Text
  pub uid : Option Text
  pub labels : Option (List (Text × Text))

pub record PodSpec : Type 0 where
  pub containers : List Text
  pub init_containers : Option (List Text)
  pub ephemeral_containers : Option (List Text)
  pub node_name : Option Text

-- Which of the three states of a container is present.
pub record ContainerState : Type 0 where
  pub running : Bool
  pub waiting : Bool
  pub terminated : Bool

pub record ContainerStatus : Type 0 where
  pub name : Text
  pub state : Option ContainerState

pub record PodCondition : Type 0 where
  pub type_ : Text
  pub status : Text

pub record PodStatus : Type 0 where
  pub conditions : Option (List PodCondition)
  pub container_statuses : Option (List ContainerStatus)
  pub init_container_statuses : Option (List ContainerStatus)
  pub ephemeral_container_statuses : Option (List ContainerStatus)

pub record Pod : Type 0 where
  pub metadata : ObjectMeta
  pub spec : Option PodSpec
  pub status : Option PodStatus
