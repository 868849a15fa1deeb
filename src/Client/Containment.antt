-- ===== src/Client/Containment.antt =====
-- The bytes that the writes of `shared/python/simrt_xcp/client.py` leave alone, also where they fail.
use sim_rt.Prelude.{
  ℕ, zero, suc, ◌+◌, ◌-◌, ◌≤◌, ◌<◌, ◌≡◌, ◌≢◌, refl, ap, ◌⊎◌, inl, inr, Bool-cases, true, List,
  arith, ltb, min, length, take, drop, length-take, length-drop,
}
use sim_rt.Prelude.Int.{pos}
use sim_rt.Exec.{ok, Result-cases}
use sim_rt.Transport.{PyxcpConfig}
use sim_rt.Transport.Master.{Master}
use sim_rt.Client.{Client, download_loop, download_all, write_memory}
use sim_rt.Client.Reading.{mem-read_memory}
use sim_rt.Client.Characteristic.{read_bytes, write_bytes, write_characteristic}
use sim_rt.Scalar.{A2lScalar, size, Value, encode}
use sim_rt.Scalar.Float64.{Floats}
use sim_rt.Scalar.Codec.{length-encode}
use sim_rt.Client.Memory.{Truthful, Contained}

-- The byte at `x` of the extension `e` is not of the span of `n` bytes.
abbrev pub Outside : ℕ → ℕ → ℕ → ℕ → ℕ → Type 0
Outside extension a n e x = (e ≢ extension) ⊎ (x < a) ⊎ (a + n ≤ x)

module _ (m : Master PyxcpConfig) (d : Truthful m) (k : Contained m d) where
  -- the span at the MTA
  abbrev Elsewhere : m.World → ℕ → ℕ → ℕ → Type 0
  Elsewhere w n e x = Outside (d.mta_extension w) (d.mta w) n e x

  Elsewhere-download :
      (bs : List ℕ) (w : m.World) (n r e x : ℕ)
      → (m.download bs w).0 ≡ ok tt
      → length bs + r ≤ n
      → Elsewhere w n e x
      → Elsewhere (m.download bs w).1 r e x
  Elsewhere-download bs w n r e x h le (inl other) =
      let (_, kept) = k.download_moves bs w h in rw kept (inl other)
  Elsewhere-download bs w n r e x h le (inr (inl below)) =
      let (moved, _) = k.download_moves bs w h in
      let p : x < d.mta (m.download bs w).1 = omega (arith, moved) in inr (inl p)
  Elsewhere-download bs w n r e x h le (inr (inr above)) =
      let (moved, _) = k.download_moves bs w h in
      let p : d.mta (m.download bs w).1 + r ≤ x = omega (arith, moved) in inr (inr p)

  Elsewhere-le : (w : m.World) (n r e x : ℕ) → r ≤ n → Elsewhere w n e x → Elsewhere w r e x
  Elsewhere-le w n r e x le (inl other) = inl other
  Elsewhere-le w n r e x le (inr (inl below)) = inr (inl below)
  Elsewhere-le w n r e x le (inr (inr above)) = let p : d.mta w + r ≤ x = omega arith in inr (inr p)

  download_loop-contained :
      (fuel offset max_chunk : ℕ) (payload : List ℕ) (c : Client m) (e x : ℕ)
      → Elsewhere c.world (length payload - offset) e x
      → d.mem (download_loop m fuel offset max_chunk payload c).1.world e x ≡ d.mem c.world e x
  unfolding download_loop
  download_loop-contained zero offset max_chunk payload c e x h = refl
  download_loop-contained (suc fuel) offset max_chunk payload c e x h =
      let frame = take max_chunk (drop offset payload) in
      let c' : Client m = record c { world = (m.download frame c.world).1 } in
      let room : length frame ≤ length payload - offset =
        omega (arith, length-take max_chunk (drop offset payload), length-drop offset payload) in
      let here : d.mem c'.world e x ≡ d.mem c.world e x =
        k.download_contained frame c.world e x (Elsewhere-le c.world _ _ e x room h) in
      let left : length frame + (length payload - (offset + max_chunk)) ≤ length payload - offset =
        omega (arith, length-take max_chunk (drop offset payload), length-drop offset payload) in
      elim (Bool-cases (ltb offset (length payload))) [
        | inr done ↦ ground arith
        | inl more ↦ elim (Result-cases (m.download frame c.world).0) [
          | inr (why, failed) ↦ ground (arith, here)
          | inl (_, written) ↦
              let ih =
                download_loop-contained fuel (offset + max_chunk) max_chunk payload c' e x
                  (Elsewhere-download frame c.world _ _ e x written left h) in
              ground (arith, here, ih)
        ]
      ]

  download_all-contained :
      (a : ℕ) (payload : List ℕ) (extension : ℕ) (c : Client m) (e x : ℕ)
      → Outside extension a (length payload) e x
      → d.mem (download_all m a payload extension c).1.world e x ≡ d.mem c.world e x
  unfolding download_all
  download_all-contained a payload extension c e x h =
      let c' : Client m = record c { world = (m.set_mta a extension c.world).1 } in
      let max_chunk = min 0xFF (m.max_cto c.world - 2) in
      let same : d.mem c'.world e x ≡ d.mem c.world e x =
        ap (λ mem. mem e x) (d.mem-set_mta a extension c.world) in
      elim (Result-cases (m.set_mta a extension c.world).0) [
        | inr (why, failed) ↦ ground (arith, same)
        | inl (_, set) ↦
            let (moved, switched) = d.set_mta_moves a extension c.world set in
            let there : Elsewhere c'.world (length payload - 0) e x =
              let e : length payload - 0 ≡ length payload = omega arith in
              rw (moved, switched, e) h in
            ground (
              arith,
              same,
              download_loop-contained (length payload) 0 max_chunk payload c' e x there,
            )
      ]

  -- Where SET_MTA and UPLOAD change no byte and, when they succeed, set the MTA and read at it, and a
  -- DOWNLOAD, also one that fails, changes only bytes of its span and, when it succeeds, moves the MTA
  -- past it (which bytes it leaves in the span is open): a write, whether it
  -- returns or raises, changes no byte outside its span.
  pub write_memory-contained :
      (a : ℕ) (payload : List ℕ) (extension : ℕ) (c : Client m) (e x : ℕ)
      → Outside extension a (length payload) e x
      → d.mem (write_memory m (pos a) payload (pos extension) c).1.world e x ≡ d.mem c.world e x
  unfolding write_memory
  write_memory-contained a payload extension c e x h =
      ground (arith, download_all-contained a payload extension c e x h)

  module _ (s : A2lScalar) where
    -- The byte is not one of the scalar's.
    abbrev pub OutsideScalar : ℕ → ℕ → Type 0
    OutsideScalar e x = Outside s.address_extension s.address (size s) e x

    pub write_bytes-contained :
        (bs : List ℕ) (c : Client m) (e x : ℕ)
        → length bs ≡ size s
        → OutsideScalar e x
        → d.mem (write_bytes m s bs c).1.world e x ≡ d.mem c.world e x
    unfolding write_bytes
    write_bytes-contained bs c e x fits h =
        write_memory-contained s.address bs s.address_extension c e x (rw fits h)

    pub mem-read_bytes : (c : Client m) → d.mem (read_bytes m s c).1.world ≡ d.mem c.world
    unfolding read_bytes
    mem-read_bytes c =
        mem-read_memory m d (pos s.address) (pos (size s)) (pos s.address_extension) c

    -- A write of a scalar, verified, refused or failed, changes no byte outside the scalar's span.
    pub write_characteristic-contained :
        (f : Floats) (v : Value f) (c : Client m) (e x : ℕ)
        → OutsideScalar e x
        → d.mem (write_characteristic m f s v true c).1.world e x ≡ d.mem c.world e x
    unfolding write_characteristic
    write_characteristic-contained f v c e x h = elim (Result-cases (encode f s v)) [
      | inr (why, refused) ↦ ground arith
      | inl (bs, encoded) ↦
          let c' = (write_bytes m s bs c).1 in
          let fits : length bs ≡ size s = length-encode f s v bs encoded in
          let wrote = write_bytes-contained bs c e x fits h in
          let read : d.mem (read_bytes m s c').1.world e x ≡ d.mem c'.world e x =
            ap (λ mem. mem e x) (mem-read_bytes c') in
          ground (arith, wrote, read)
    ]
