-- ===== src/Go/Os.antt =====
-- The package `os`, as a parameter: the calls of the driver that go to the operating system.
use upcloud_csi.Base.{String}
use upcloud_csi.Go.Effects.{Action}

pub record Os (S : Type 0) : Type 0 where
  pub stat : String → Action S (Unit {0})
  pub remove : String → Action S (Unit {0})
  pub mkdir_all : String → Action S (Unit {0})
  -- `OpenFile` with `O_CREATE`, and `Close` of that file.
  pub create : String → Action S (Unit {0})
  pub close : String → Action S (Unit {0})
  pub readlink : String → Action S String
