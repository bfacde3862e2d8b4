-- ===== src/Device/Stack.antt =====
-- KSZ8851/devicedriver/copybuffs.c: the calls into the network stack.
--
-- The stack gives its functions to `DeviceOpen` as pointers. They are not part of the repository:
-- `Stack` is what they do, given the pointer that is called. A copy that fails returns FALSE.
use driver_amiga_os_ks.Prelude.{ℕ, Bool, List, Option}
use driver_amiga_os_ks.Device.Types.{Request}

pub record Stack : Type 0 where
  -- `CopyFromBuffer`: the bytes that land in the buffer, `none` if it fails
  pub copy_from_buffer : ℕ → Request → ℕ → Option (List ℕ)
  -- `CopyToBuffer`: whether the stack took the bytes
  pub copy_to_buffer : ℕ → Request → List ℕ → ℕ → Bool
  -- `CallFilterHook`: whether the stack wants the packet
  pub call_filter_hook : ℕ → Request → List ℕ → Bool
  -- `CopyFromBufferDMA`: the packet's memory, `none` for NULL
  pub copy_from_buffer_dma : ℕ → Request → Option (List ℕ)
