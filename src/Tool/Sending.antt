-- ===== src/Tool/Sending.antt =====
-- `sendPackets`: it ends, and it gives the chip its interrupt mask back.
use driver_amiga_os_ks.Prelude.{
  ℕ, some, zero, suc, ◌≤◌, ◌+◌, ◌≡◌, ◌<◌, arith, refl, ltb, ap, ◌*◌, ◌-◌,
}
use driver_amiga_os_ks.Tool.Main.{
  packet_loop, send_packets, is_below, enough, packet_buffer, pkt_len,
}
use driver_amiga_os_ks.Tool.{ℤ, pos, negsuc}
use driver_amiga_os_ks.Chip.Bus.{read_reg, write_reg, Nic, pure}
use driver_amiga_os_ks.Chip.Fifo.{Bytes}
use driver_amiga_os_ks.Chip.Outcomes.{of-if}
use driver_amiga_os_ks.Chip.Reg.{reg_ier}
use driver_amiga_os_ks.Chip.Send.{send_packet}
use driver_amiga_os_ks.Tool.Output.{DateStamp, ticks_diff}

-- The packets that a count asks for: at least one.
abbrev pub packets_for : ℤ → ℕ
packets_for (pos zero) = 1
packets_for (pos (suc k)) = suc k
packets_for (negsuc k) = 1

-- The chip after so many packets.
abbrev pub after_packets : ℕ → Bytes → Nic → Nic
after_packets zero buffer n = n
after_packets (suc k) buffer n = after_packets k buffer (send_packet buffer pkt_len n).1

packet_loop-pos :
    (fuel k left limit : ℕ) (buffer : Bytes) (n : Nic)
    → left < fuel
    → limit ≡ k + suc left
    → packet_loop fuel buffer k (pos limit) n ≡ (some limit, after_packets (suc left) buffer n)
unfolding packet_loop is_below
packet_loop-pos zero k left limit buffer n h e = absurd (omega (arith, h))
packet_loop-pos (suc fuel) k zero limit buffer n h e =
    let n' = (send_packet buffer pkt_len n).1 in
    of-if (λ p. p ≡ (some limit, n')) (ltb (k + 1) limit)
      (packet_loop fuel buffer (k + 1) (pos limit)) (pure (some (k + 1))) n'
      (λ f. absurd (ground arith)) (λ f. ap (λ l. (some l, n')) (omega (arith, e)))
packet_loop-pos (suc fuel) k (suc left) limit buffer n h e =
    let n' = (send_packet buffer pkt_len n).1 in
    of-if (λ p. p ≡ (some limit, after_packets (suc left) buffer n')) (ltb (k + 1) limit)
      (packet_loop fuel buffer (k + 1) (pos limit)) (pure (some (k + 1))) n'
      (λ f. packet_loop-pos fuel (k + 1) left limit buffer n' (omega (arith, h)) (omega (arith, e)))
      (λ f. absurd (ground arith))

packet_loop-ends :
    (count : ℤ) (buffer : Bytes) (n : Nic)
    → packet_loop (enough count) buffer 0 count n
      ≡ (some (packets_for count), after_packets (packets_for count) buffer n)
unfolding packet_loop is_below
packet_loop-ends (pos zero) buffer n = refl
packet_loop-ends (pos (suc k)) buffer n =
    packet_loop-pos (suc (suc k)) 0 k (suc k) buffer n (omega arith) (omega arith)
packet_loop-ends (negsuc k) buffer n = refl

-- Sending a number of packets ends, and it does what sending the packet so many times over does, as many
-- times as were asked for, but at least once, even for a negative number: with the interrupt enable
-- register cleared before, and set to what it held at the start behind.
pub send_packets-ends :
    (stack_memory : Bytes) (count : ℤ) (n : Nic)
    → (let old_ier = read_reg reg_ier n in
        let started = (write_reg reg_ier 0 old_ier.1).1 in
        let sent = after_packets (packets_for count) (packet_buffer stack_memory) started in
        send_packets (enough count) stack_memory count n
        ≡ (some (packets_for count), (write_reg reg_ier old_ier.0 sent).1))
unfolding send_packets
send_packets-ends stack_memory count n =
    let old_ier = read_reg reg_ier n in
    let started = (write_reg reg_ier 0 old_ier.1).1 in
    ap (λ p. (p.0, (write_reg reg_ier old_ier.0 p.1).1))
      (packet_loop-ends count (packet_buffer stack_memory) started)

-- Ticks since midnight.
abbrev pub ticks : DateStamp → ℕ
ticks d = d.ds_minute * 3000 + d.ds_tick

-- The difference of two stamps of one day, the later one second, is the number of ticks between them.
pub ticks_diff_lem :
    (d1 d2 : DateStamp)
    → d1.ds_minute < 1440
    → d2.ds_minute < 1440
    → d1.ds_tick < 3000
    → d2.ds_tick < 3000
    → ticks d1 ≤ ticks d2
    → ticks_diff d1 d2 ≡ ticks d2 - ticks d1
unfolding ticks_diff
ticks_diff_lem d1 d2 a b c d h = omega (arith, a, b, c, d, h)
