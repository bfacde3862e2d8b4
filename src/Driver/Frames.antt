-- ===== src/Driver/Frames.antt =====
-- The sizes of the frames that a loaded device has the chip send.
use driver_amiga_os_ks.Chip.Send.{invalid_length, padded}
use driver_amiga_os_ks.Prelude.{
  ◌≡◌, true, refl, inl, inr, List, ℕ, ◌∷◌, ◌≤◌, [], ◌⊎◌, ltb, ◌||◌, arith, ◌+◌, ◌%◌, some, subst,
}
use driver_amiga_os_ks.Device.Types.{LowLevelCall, DeviceUnit}
use driver_amiga_os_ks.Chip.Send.{send_packet}
use driver_amiga_os_ks.Chip.Bus.{Nic, pure}
use driver_amiga_os_ks.Chip.Reg.{eth_max_frame_size, eth_header_size}
use driver_amiga_os_ks.Device.Writing.{all_fit, fits}
use driver_amiga_os_ks.Device.Lifecycle.{DeviceDriver}
use driver_amiga_os_ks.Device.System.{Reach, asm_dev_init}
use driver_amiga_os_ks.Device.System.Invariant.{Reach-IsValid}
use driver_amiga_os_ks.Device.System.Sound.{HasSoundUnit}
use driver_amiga_os_ks.Chip.Outcomes.{of-if}
use driver_amiga_os_ks.Chip.Fifo.{Bytes}
use driver_amiga_os_ks.Chip.Wire.{prepend}

-- On a chip: a raw packet has the length of a frame, or is refused with INVALID_LENGTH before the chip
-- is touched; a cooked one gives a frame of 60 to 1514 bytes with its header, and the byte count that
-- is written to the chip is that length.
abbrev pub HasLegalFrame : Bytes → Nic → LowLevelCall → Type 0
HasLegalFrame stale nic (LowLevelCall.send_packet bytes n) =
    ((46 ≤ n) × (n ≤ 1518)) ⊎ (send_packet (prepend bytes stale) n nic ≡ (invalid_length, nic))
HasLegalFrame stale nic (LowLevelCall.send_packet_cooked dst src packet_type bytes n) =
    ((padded n + eth_header_size) % 65536 ≡ padded n + eth_header_size)
    × (60 ≤ padded n + eth_header_size)
    × (padded n + eth_header_size ≤ 1514)
HasLegalFrame stale nic _ = Unit

abbrev pub HaveLegalFrames : Bytes → Nic → List LowLevelCall → Type 0
HaveLegalFrames stale nic [] = Unit
HaveLegalFrames stale nic (call ∷ calls) =
    HasLegalFrame stale nic call × HaveLegalFrames stale nic calls

raw-HasLegalFrame :
    (stale : Bytes) (nic : Nic) (bytes : List ℕ) (n : ℕ)
    → HasLegalFrame stale nic (LowLevelCall.send_packet bytes n)
unfolding send_packet
raw-HasLegalFrame stale nic bytes n =
    of-if (λ q. ((46 ≤ n) × (n ≤ 1518)) ⊎ (q ≡ (invalid_length, nic)))
      (ltb n 46 || ltb eth_max_frame_size n) (pure invalid_length) _ nic (λ e. inr refl)
      (λ e. inl (ground arith))

call-HasLegalFrame :
    (stale : Bytes) (nic : Nic) (call : LowLevelCall)
    → fits call ≡ true
    → HasLegalFrame stale nic call
call-HasLegalFrame stale nic (LowLevelCall.send_packet bytes n) h =
    raw-HasLegalFrame stale nic bytes n
call-HasLegalFrame stale nic (LowLevelCall.send_packet_cooked dst src packet_type bytes n) h =
    (ground arith, ground arith, ground arith)
call-HasLegalFrame stale nic _ h = tt

calls-HaveLegalFrames :
    (stale : Bytes) (nic : Nic) (calls : List LowLevelCall)
    → all_fit calls ≡ true
    → HaveLegalFrames stale nic calls
calls-HaveLegalFrames stale nic [] h = tt
calls-HaveLegalFrames stale nic (call ∷ calls) h = (
  call-HasLegalFrame stale nic call (ground arith),
  calls-HaveLegalFrames stale nic calls (ground arith),
)

-- Every packet that a device has its chip driver send, whatever has become of the device since
-- `DeviceInit` and whatever state the chip is in: a raw one has 46 to 1518 bytes or is refused with
-- INVALID_LENGTH before the chip is touched, and a cooked one gives a frame of 60 to 1514 bytes, whose
-- length the 16-bit byte count holds.
pub Reach-HaveLegalFrames :
    (libf_delexp libf_changed libf_sumused : ℕ) (stale : Bytes) (nic : Nic) (u : DeviceUnit)
    {d : DeviceDriver}
    → Reach libf_delexp (asm_dev_init libf_changed libf_sumused) d
    → d.device_unit ≡ some u
    → HaveLegalFrames stale nic u.low_level
Reach-HaveLegalFrames libf_delexp libf_changed libf_sumused stale nic u reached e =
    let valid = Reach-IsValid libf_delexp libf_changed libf_sumused reached in
    let sound = subst HasSoundUnit e valid.1 in calls-HaveLegalFrames stale nic u.low_level sound.2
