-- ===== src/Config/Registry.antt =====
-- KSZ8851/devicedriver/configfile.c: `RegistryInit` and `RegistryDestroy`.
--
-- `Open`, `Close`, `AllocDosObject` and `FreeDosObject` are the operating system's; `files` and
-- `objects` count what it has handed out and not got back.
use driver_amiga_os_ks.Prelude.{
  ℕ, Bool, true, false, none, some, ◌+◌, ◌-◌, Option, ◌&&◌, ◌≡◌, arith,
}

-- The static variables of the module, with NULL as `none`.
pub record Registry : Type 0 where
  pub fh : Option ℕ
  pub rdargs : Option ℕ
  pub config_file_open : Bool
  pub files : ℕ
  pub objects : ℕ

-- `if (fh) Close(fh);`
unfoldable pub close_file : Registry → Registry
close_file g = elim g.fh [ none ↦ g | some _ ↦ record g { files = g.files - 1 } ]

abbrev pub handed_out : Option ℕ → ℕ
handed_out none = 0
handed_out (some _) = 1

abbrev pub is_some : Option ℕ → Bool
is_some none = false
is_some (some _) = true

-- `file` and `object` are what `Open` and `AllocDosObject` give.
unfoldable pub registry_init : Option ℕ → Option ℕ → Registry → Registry
unfolding close_file
registry_init file object g =
    let closed = close_file g in
    record closed {
      fh = file;
      rdargs = object;
      config_file_open = is_some file && is_some object;
      files = closed.files + handed_out file;
      objects = closed.objects + handed_out object;
    }

unfoldable pub registry_destroy : Registry → Registry
unfolding close_file
registry_destroy g =
    let closed = record (close_file g) { fh = none } in
    elim closed.rdargs [
      | none ↦ closed
      | some _ ↦ record closed { rdargs = none; objects = closed.objects - 1 }
    ]

-- After `RegistryInit` and `RegistryDestroy` on a registry without an open file, nothing is held and the
-- operating system has got back all that it gave, whichever of the file and the object could be had;
-- but `configFileOpen` still tells of an open file if both could.
pub registry_destroy-registry_init :
    (file object : Option ℕ) (g : Registry)
    → g.fh ≡ none
    → registry_destroy (registry_init file object g)
      ≡ record g { fh = none; rdargs = none; config_file_open = is_some file && is_some object }
unfolding registry_destroy registry_init close_file
registry_destroy-registry_init file object g h = ground arith
