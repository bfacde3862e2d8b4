-- ===== src/Driver/Tests/Link.antt =====
-- A packet on its way out of one device, and into another.
use driver_amiga_os_ks.Driver.Tests.{platform}
use driver_amiga_os_ks.Chip.Fifo.{Bytes, dword_aligned, word}
use driver_amiga_os_ks.Prelude.{
  List, ℕ, if◌then◌else◌, ◌==◌, [], true, ◌≡◌, ◌-◌, ◌<◌, ◌∷◌, ◌*◌, refl, ◌+◌, arith, suc, zero,
  ◌++◌, ◌%◌, some, take,
}
use driver_amiga_os_ks.Chip.Bus.{Nic, Delivery}
use driver_amiga_os_ks.Device.Receive.{matches, on_pkt_received, dev_cmd_read_packet}
use driver_amiga_os_ks.Driver.{run_calls, memory_of}
use driver_amiga_os_ks.Device.Transmit.{cooked_payload, dma_packet_buffer, dev_cmd_write_packet}
use driver_amiga_os_ks.Driver.Receiving.{
  image, counted_length, receiving, received, receive_packet-dev_cmd_read_packet, arrived,
}
use driver_amiga_os_ks.Chip.Tests.{nic_answering, counting_bytes}
use driver_amiga_os_ks.Device.Tests.Data.{waiting_unit, opener, full_stack, write_10, read_7}
use driver_amiga_os_ks.Chip.Transfer.{Gives}
use driver_amiga_os_ks.Config.Address.{all_bytes}
use driver_amiga_os_ks.Chip.Wire.{prepend, header_bytes}
use driver_amiga_os_ks.Chip.Receive.{receive_packet}
use driver_amiga_os_ks.Device.Types.{term_io, Request}
use driver_amiga_os_ks.Driver.Sending.{
  frame_bytes, accepted, after_frame, dev_cmd_write_packet-after_frame,
}
use driver_amiga_os_ks.Chip.Send.{padded}
use driver_amiga_os_ks.Chip.Reg.{eth_header_size}
use driver_amiga_os_ks.Device.Stack.{Stack}
use driver_amiga_os_ks.Driver.Link.{
  alone, come_in, sent_frame, received_from, dev_cmd_write_packet-dev_cmd_read_packet,
}

-- The written request, with 46 bytes of payload at least.
dev_cmd_write_packet-after_frame_example :
    (let u' = dev_cmd_write_packet full_stack write_10 waiting_unit in
      let n = (run_calls platform waiting_unit.low_level (nic_answering 0x1fff)).1 in
      (u'.completed ≡ (term_io (accepted write_10) waiting_unit).completed)
      × ((run_calls platform u'.low_level (nic_answering 0x1fff)).1
          ≡ after_frame
              (header_bytes n.frame_id (padded write_10.data_length + eth_header_size)
                ++ frame_bytes
                    (memory_of write_10.dst_addr)
                    (memory_of waiting_unit.st_addr)
                    (write_10.packet_type % 65536)
                    (prepend (1 ∷ 2 ∷ 3 ∷ []) counting_bytes)
                    write_10.data_length)
              n))
unfolding run_calls cooked_payload dma_packet_buffer
dev_cmd_write_packet-after_frame_example =
    dev_cmd_write_packet-after_frame full_stack platform (nic_answering 0x1fff) write_10
      waiting_unit (1 ∷ 2 ∷ 3 ∷ []) refl refl refl refl refl refl refl refl

abbrev zeros : Bytes
zeros i = 0

abbrev full_image : Bytes
full_image = image 1 2 counting_bytes counting_bytes 2048 counting_bytes 46 zeros

-- A chip that has the frame.
abbrev full_nic : Nic
full_nic = record (nic_answering 0) {
  answers = λ i.
      if i == 0
      then 0x8000
      else if i == 1
      then 66
      else word true (λ j. full_image ((i - 6) * 2 + j));
}

prepend-below :
    (xs : List ℕ) (bytes : Bytes) (i : ℕ)
    → all_bytes xs ≡ true
    → ((j : ℕ) → bytes j < 256)
    → prepend xs bytes i < 256
prepend-below [] bytes i h b = b i
prepend-below (x ∷ xs) bytes zero h b = ground arith
prepend-below (x ∷ xs) bytes (suc i) h b = prepend-below xs bytes i (ground arith) b

given : Gives true full_image (dword_aligned (counted_length 46)) full_nic.answers 6
unfolding dword_aligned word
given = (
  refl,
  (
    refl,
    (
      refl,
      (
        refl,
        (
          refl,
          (
            refl,
            (
              refl,
              (
                refl,
                (
                  refl,
                  (
                    refl,
                    (
                      refl,
                      (
                        refl,
                        (
                          refl,
                          (
                            refl,
                            (
                              refl,
                              (
                                refl,
                                (
                                  refl,
                                  (
                                    refl,
                                    (
                                      refl,
                                      (
                                        refl,
                                        (
                                          refl,
                                          (
                                            refl,
                                            (
                                              refl,
                                              (
                                                refl,
                                                (
                                                  refl,
                                                  (
                                                    refl,
                                                    (
                                                      refl,
                                                      (
                                                        refl,
                                                        (
                                                          refl,
                                                          (
                                                            refl,
                                                            (refl, (refl, (refl, (refl, tt)))),
                                                          ),
                                                        ),
                                                      ),
                                                    ),
                                                  ),
                                                ),
                                              ),
                                            ),
                                          ),
                                        ),
                                      ),
                                    ),
                                  ),
                                ),
                              ),
                            ),
                          ),
                        ),
                      ),
                    ),
                  ),
                ),
              ),
            ),
          ),
        ),
      ),
    ),
  ),
)

receive_packet-dev_cmd_read_packet_example :
    (let alone = record waiting_unit {
      buff_mgmt = record { callbacks = opener; rx_queue = [] } ∷ [];
    } in
      (d : Delivery) × ((receive_packet (receiving [] full_nic)).1.delivered ≡ d ∷ [])
      × (on_pkt_received full_stack d.buffer d.size (dev_cmd_read_packet read_7 alone)
          ≡ term_io (received counting_bytes counting_bytes 2048 46 read_7) alone))
unfolding matches
receive_packet-dev_cmd_read_packet_example =
    receive_packet-dev_cmd_read_packet full_stack 1 2 counting_bytes counting_bytes 2048
      counting_bytes 46 zeros [] full_nic read_7 waiting_unit (omega arith) refl refl
      (λ i.
        prepend-below (1 ∷ 2 ∷ frame_bytes counting_bytes counting_bytes 2048 counting_bytes 46)
          zeros i refl (λ j. omega arith))
      given refl refl refl refl (refl, refl)

-- A request for a packet of four bytes, and a stack that gives them.
abbrev write_4 : Request
write_4 = record write_10 { data_length = 4 }

abbrev four_bytes : List ℕ
four_bytes = 9 ∷ 8 ∷ 7 ∷ 6 ∷ []

-- They lie in memory before what an earlier packet left.
abbrev four_payload : Bytes
four_payload = prepend four_bytes counting_bytes

abbrev giving_stack : Stack
giving_stack = record full_stack { copy_from_buffer = λ function r n. some four_bytes }

abbrev four_in : Bytes
four_in = come_in 1 2 (sent_frame write_4 waiting_unit four_payload) zeros

-- The other chip, which has the frame.
abbrev four_nic : Nic
four_nic = record (nic_answering 0) {
  answers = λ i.
      if i == 0 then 0x8000 else if i == 1 then 66 else word true (λ j. four_in ((i - 6) * 2 + j));
}

four_given : Gives true four_in (dword_aligned (counted_length 4)) four_nic.answers 6
unfolding dword_aligned word
four_given = (
  refl,
  (
    refl,
    (
      refl,
      (
        refl,
        (
          refl,
          (
            refl,
            (
              refl,
              (
                refl,
                (
                  refl,
                  (
                    refl,
                    (
                      refl,
                      (
                        refl,
                        (
                          refl,
                          (
                            refl,
                            (
                              refl,
                              (
                                refl,
                                (
                                  refl,
                                  (
                                    refl,
                                    (
                                      refl,
                                      (
                                        refl,
                                        (
                                          refl,
                                          (
                                            refl,
                                            (
                                              refl,
                                              (
                                                refl,
                                                (
                                                  refl,
                                                  (
                                                    refl,
                                                    (
                                                      refl,
                                                      (
                                                        refl,
                                                        (
                                                          refl,
                                                          (
                                                            refl,
                                                            (refl, (refl, (refl, (refl, tt)))),
                                                          ),
                                                        ),
                                                      ),
                                                    ),
                                                  ),
                                                ),
                                              ),
                                            ),
                                          ),
                                        ),
                                      ),
                                    ),
                                  ),
                                ),
                              ),
                            ),
                          ),
                        ),
                      ),
                    ),
                  ),
                ),
              ),
            ),
          ),
        ),
      ),
    ),
  ),
)

dev_cmd_write_packet-dev_cmd_read_packet_example :
    (let m = (run_calls platform waiting_unit.low_level (nic_answering 0x1fff)).1 in
      let u' = dev_cmd_write_packet giving_stack write_4 waiting_unit in
      let reader = alone opener waiting_unit in
      ((run_calls platform u'.low_level (nic_answering 0x1fff)).1
        ≡ after_frame
            (header_bytes m.frame_id (padded 4 + eth_header_size)
              ++ sent_frame write_4 waiting_unit four_payload)
            m)
      × ((d : Delivery) × ((receive_packet (receiving [] four_nic)).1.delivered ≡ d ∷ [])
          × (on_pkt_received full_stack d.buffer d.size (dev_cmd_read_packet read_7 reader)
              ≡ term_io (received_from write_4 waiting_unit read_7) reader))
      × (take 4 (arrived four_payload 4 zeros []) ≡ four_bytes))
unfolding run_calls cooked_payload dma_packet_buffer matches
dev_cmd_write_packet-dev_cmd_read_packet_example =
    dev_cmd_write_packet-dev_cmd_read_packet write_4 read_7 waiting_unit waiting_unit four_bytes
      giving_stack full_stack platform (nic_answering 0x1fff) four_nic 1 2 zeros []
      (refl, refl, refl, refl, refl, refl, refl, refl, refl, refl) refl
      (refl, refl, refl, refl, refl, refl) refl refl
      (λ i.
        prepend-below (1 ∷ 2 ∷ sent_frame write_4 waiting_unit four_payload) zeros i refl
          (λ j. omega arith))
      four_given
