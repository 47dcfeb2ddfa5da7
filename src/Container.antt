-- ===== src/Container.antt =====
-- pkg/container: containers, image names, and the managers of container engines.
pub mod Image
pub mod Reference
pub mod Manager
pub mod Ports
pub mod Debug
pub mod Docker
use car_integrated_service_m.Prelude.{Bytes, codes}

pub record Container : Type 0 where
  pub id : Bytes
  pub first_name : Bytes
  pub image : Bytes
  pub ports : Bytes
  pub status : Bytes

abbrev pub wildcard_ip : Bytes
wildcard_ip = codes "0.0.0.0"
