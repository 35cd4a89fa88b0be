-- ===== src/Server/Address.antt =====
-- The address that a server listens on: the fields of `url.URL` that internal/server reads.
use upcloud_csi.Base.{String}

pub record Url : Type 0 where
  pub scheme : String
  pub host : String
  pub path : String
