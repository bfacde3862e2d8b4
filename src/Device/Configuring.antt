-- ===== src/Device/Configuring.antt =====
-- `ReadConfig` of KSZ8851/devicedriver/device.c as Config/Reading has it, and what the service loop keeps
-- of it.
use driver_amiga_os_ks.Prelude.{List, ℕ, Option, ◌≡◌, ap, sym}
use driver_amiga_os_ks.Config.{Text, read_key_mac_address, fallback_mac_address}
use driver_amiga_os_ks.Config.Reading.{
  Configured, Surroundings, read_config, read_key_str, key_tokens, mac,
}
use driver_amiga_os_ks.Config.Registry.{registry_init}
use driver_amiga_os_ks.Device.Types.{DeviceUnit}
use driver_amiga_os_ks.Device.Dispatch.{reread_config}

-- The unit has the address that `ReadConfig` finds.
st_addr-reread_config :
    (s : Surroundings) (lines : List Text) (file object : Option ℕ) (t : Configured)
    (u : DeviceUnit)
    → t.st_addr ≡ u.st_addr
    → (reread_config
        (key_tokens s lines (read_key_str s lines mac (registry_init file object t.registry)))
        u).st_addr
      ≡ (read_config s lines file object t).st_addr
unfolding reread_config read_config
st_addr-reread_config s lines file object t u e =
    ap
      (λ a.
        read_key_mac_address
          (key_tokens s lines (read_key_str s lines mac (registry_init file object t.registry))) a
          fallback_mac_address)
      (sym e)
