-- ===== src/Client/Keeping.antt =====
-- What each command of the master keeps, `read_memory` and `write_memory` keep: one rule for
-- each, for any property of the client.
use sim_rt.Prelude.{ℕ, zero, suc, ◌+◌, ◌-◌, List, [], ◌++◌, arith, min, length, take, drop}
use sim_rt.Prelude.Int.{ℤ, pos_part}
use sim_rt.Exec.{Keeps, >>=-Keeps}
use sim_rt.Transport.{PyxcpConfig}
use sim_rt.Transport.Master.{Master}
use sim_rt.Client.{
  Client, upload_chunk, upload_loop, upload_all, read_memory, download_loop, download_all,
  write_memory,
}

module _ (m : Master PyxcpConfig) (P : Client m → Type 0) where
  -- the client after a command
  abbrev pub KeptBy : (m.World → m.World) → Type 0
  KeptBy f = (c : Client m) → P c → P (record c { world = f c.world })

  module _ (by_mta : (a e : ℕ) → KeptBy (λ w. (m.set_mta a e w).1)) where
    module _ (by_upload : (n : ℕ) → KeptBy (λ w. (m.upload n w).1)) where
      upload_chunk-Keeps : (n : ℕ) → Keeps P (upload_chunk m n)
      unfolding upload_chunk
      upload_chunk-Keeps n = record { at = λ c h. ground (arith, by_upload n c h) }

      upload_loop-Keeps :
          (fuel remaining max_chunk : ℕ) (result : List ℕ)
          → Keeps P (upload_loop m fuel remaining max_chunk result)
      unfolding upload_loop
      upload_loop-Keeps zero remaining max_chunk result = record { at = λ c h. h }
      upload_loop-Keeps (suc fuel) remaining max_chunk result =
          let k = min remaining max_chunk in
          let round =
            >>=-Keeps (upload_chunk m k)
              (λ l. upload_loop m fuel (remaining - k) max_chunk (result ++ l))
              (upload_chunk-Keeps k)
              (λ l. upload_loop-Keeps fuel (remaining - k) max_chunk (result ++ l)) in
          record { at = λ c h. ground (arith, round.at c h) }

      upload_all-Keeps : (a n e : ℕ) → Keeps P (upload_all m a n e)
      unfolding upload_all
      upload_all-Keeps a n e = record {
        at = λ c h.
            let c' : Client m = record c { world = (m.set_mta a e c.world).1 } in
            let k = min 0xFF (m.max_cto c.world - 1) in
            ground (arith, by_mta a e c h, (upload_loop-Keeps n n k []).at c');
      }

      pub read_memory-Keeps : (a n e : ℤ) → Keeps P (read_memory m a n e)
      unfolding read_memory
      read_memory-Keeps a n e = record {
        at =
            λ c h. ground (arith, (upload_all-Keeps (pos_part a) (pos_part n) (pos_part e)).at c h);
      }

    module _ (by_download : (bs : List ℕ) → KeptBy (λ w. (m.download bs w).1)) where
      download_loop-Keeps :
          (fuel offset max_chunk : ℕ) (payload : List ℕ)
          → Keeps P (download_loop m fuel offset max_chunk payload)
      unfolding download_loop
      download_loop-Keeps zero offset max_chunk payload = record { at = λ c h. h }
      download_loop-Keeps (suc fuel) offset max_chunk payload = record {
        at = λ c h.
            let frame = take max_chunk (drop offset payload) in
            let c' : Client m = record c { world = (m.download frame c.world).1 } in
            ground (
              arith,
              by_download frame c h,
              (download_loop-Keeps fuel (offset + max_chunk) max_chunk payload).at c',
            );
      }

      download_all-Keeps : (a : ℕ) (payload : List ℕ) (e : ℕ) → Keeps P (download_all m a payload e)
      unfolding download_all
      download_all-Keeps a payload e = record {
        at = λ c h.
            let c' : Client m = record c { world = (m.set_mta a e c.world).1 } in
            let k = min 0xFF (m.max_cto c.world - 2) in
            ground
              (arith, by_mta a e c h, (download_loop-Keeps (length payload) 0 k payload).at c');
      }

      pub write_memory-Keeps :
          (a : ℤ) (payload : List ℕ) (e : ℤ) → Keeps P (write_memory m a payload e)
      unfolding write_memory
      write_memory-Keeps a payload e = record {
        at = λ c h. ground (arith, (download_all-Keeps (pos_part a) payload (pos_part e)).at c h);
      }
