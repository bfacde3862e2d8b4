-- ===== src/Config/Tests.antt =====
-- A concrete registry.
mod Stored
use driver_amiga_os_ks.Config.{read_key_mac_address, fallback_mac_address}
use driver_amiga_os_ks.Prelude.{some, map, ◌∷◌, [], ◌≡◌, refl, none, false}
use driver_amiga_os_ks.Config.Address.{hex_byte, read_key_mac_address-hex_byte}
use driver_amiga_os_ks.Config.Registry.{
  Registry, registry_destroy, registry_init, registry_destroy-registry_init,
}

abbrev pub empty_registry : Registry
empty_registry = record {
  fh = none;
  rdargs = none;
  config_file_open = false;
  files = 3;
  objects = 2;
}
