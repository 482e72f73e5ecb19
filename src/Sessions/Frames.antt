-- ===== src/Sessions/Frames.antt =====
-- A frame on a connection and a datagram, from the bytes to the handler and back
-- (server/src/ya_server_session.c and ya_server_command.c).
use mathlib.Core.List.{append-nil}
use mouse_hero.Base.{
  zero, suc, ◌+◌, ◌%◌, ◌==◌, not, ◌≤◌, refl, ◌∷◌, take, take_all, length-take, leb, Bool-cases, inl,
  inr, true, if◌then◌else◌, false, arith, sym, ◌∙◌, [], none, ℕ, ◌<◌, ◌^◌, ◌≡◌, ap, some, ◌++◌,
  length,
}
use mouse_hero.Clients.{find_by_uid, Client, active, deref}
use mouse_hero.Filter.{Floats, float_zero}
use mouse_hero.Handlers.{World, Env}
use mouse_hero.Handlers.Dispatch.{process_server_event}
use mouse_hero.Sessions.{
  udp_readcb, handle_datagram, handle_received, datagram_size, answer, address, respond, held,
  handle_frame, conn_readcb,
}
use mouse_hero.Wire.{read_be32, u32_mod, Bytes, EventHeader, Param}
use mouse_hero.Wire.Codec.{parse_event, serialize_event}
use mouse_hero.Wire.Evbuffer.{Evbuffer}
use mouse_hero.Wire.Framing.{PackageSize, is_misfit, get_package_size, to_uint32}
use mouse_hero.Wire.Mpack.{Mpack}
use mouse_hero.Wire.Payloads.{IsCodable}
use mouse_hero.Wire.Survival.{parse_event-serialize, total_size-serialize}
use mouse_hero.Wire.RoundTrip.{IsReadable}

take-take : (n m : ℕ) (bs : Bytes) → n ≤ m → take n (take m bs) ≡ take n bs
take-take zero m bs h = refl
take-take (suc n) zero bs h = absurd (omega (arith, h))
take-take (suc n) (suc m) [] h = refl
take-take (suc n) (suc m) (b ∷ bs) h = ap (λ t. b ∷ t) (take-take n m bs (omega (arith, h)))

cut_misfits :
    (len whole : ℕ) (size : PackageSize)
    → len ≡ 2048
    → size.total_size + 4 ≡ whole
    → 2048 < whole
    → whole < 2 ^ 31
    → is_misfit len size ≡ true
cut_misfits len whole size received sized long short =
    ap (λ n. not (n == (size.total_size + 4) % u32_mod)) received
    ∙ (let h : (size.total_size + 4) % u32_mod ≡ whole = omega (arith, sized, short) in
        ap (λ n. not (2048 == n)) h ∙ ground (arith, long))

module _ (fl : Floats) (env : Env fl.F) (mp : Mpack fl.F) (ev : Evbuffer) where
  -- When the bytes, fewer than 2^31, of a serialized event with a readable header and a payload of
  -- its type have arrived on the connection of an active client, with anything behind them, the
  -- callback takes out exactly those bytes, runs the dispatch on that very event, with a reference
  -- to the client held, and goes on to send the response.
  pub conn_readcb-serialize :
      (bev addr : ℕ) (c : Client) (h : EventHeader) (p : Param fl.F) (buf : ev.Buffer)
      (wire rest : Bytes) (w : World fl.F)
      → IsReadable h
      → IsCodable h.type p
      → deref w.clients addr ≡ some c
      → c.state ≡ active
      → serialize_event mp (record { header = h; param = p }) ≡ some wire
      → length wire < 2 ^ 31
      → ev.bytes buf ≡ wire ++ rest
      → (left : ev.Buffer) × (ev.bytes left ≡ rest)
        × (conn_readcb fl env mp ev bev addr buf w
            ≡ respond fl env mp ev addr left (
                process_server_event fl env
                  (some bev)
                  (record { header = h; param = p })
                  (some addr)
                  (held fl env mp ev addr w)))
  unfolding conn_readcb handle_frame
  conn_readcb-serialize bev addr c h p buf wire rest w readable codable found live written short e =
      let size = get_package_size ev buf in
      let (complete, left, event) =
        parse_event-serialize mp ev (float_zero fl) h p buf wire rest readable codable written short
          e in
      let r = parse_event mp ev (float_zero fl) (ev.drain buf 8) size in
      (
        r.0,
        left,
        rw (conn_readcb, found, live, complete)
            (ap (λ o. handle_frame fl env mp ev bev addr w (r.0, o)) event),
      )

  -- The total size is read from the first four bytes, whatever follows.
  total_size_front :
      (b b' : ev.Buffer)
      → take 4 (ev.bytes b) ≡ take 4 (ev.bytes b')
      → (get_package_size ev b).total_size ≡ (get_package_size ev b').total_size
  unfolding get_package_size to_uint32
  total_size_front b b' same =
      ap read_be32
        (ev.copyout_lem b 0 4 (omega arith) ∙ (same ∙ sym (ev.copyout_lem b' 0 4 (omega arith))))

  module _ (h : EventHeader) (p : Param fl.F) (wire : Bytes) (w : World fl.F)
      (readable : IsReadable h) (codable : IsCodable h.type p)
      (written : serialize_event mp (record { header = h; param = p }) ≡ some wire) where
    received-serialize :
        (buf : ev.Buffer)
        → length wire < 2 ^ 31
        → ev.bytes buf ≡ wire
        → handle_received fl env mp ev buf w
          ≡ answer fl env mp ev (
              process_server_event fl env none
                (record { header = h; param = p })
                (address fl env mp ev (find_by_uid w.clients h.uid))
                w)
    unfolding handle_datagram
    received-serialize buf short e =
        let size = get_package_size ev buf in
        let exact : ev.bytes buf ≡ wire ++ [] = e ∙ sym (append-nil wire) in
        let (complete, left, event) =
          parse_event-serialize mp ev (float_zero fl) h p buf wire [] readable codable written short
            exact in
        let sized =
          total_size-serialize mp ev (float_zero fl) h p buf wire [] codable written short exact in
        let fits : is_misfit (length (ev.bytes buf)) size ≡ false =
          ground (arith, sized, ap length e) in
        rw fits (ap (handle_datagram fl env mp ev w) event)

    cut-serialize :
        datagram_size < length wire
        → length wire < 2 ^ 31
        → handle_received fl env mp ev (ev.of_bytes (take datagram_size wire)) w ≡ some (w, none)
    cut-serialize long short =
        let whole = ev.of_bytes wire in
        let cut = ev.of_bytes (take datagram_size wire) in
        let sized =
          total_size-serialize mp ev (float_zero fl) h p whole wire [] codable written short
            (ev.bytes-of_bytes wire ∙ sym (append-nil wire)) in
        let same = total_size_front cut whole (
          ap (take 4) (ev.bytes-of_bytes (take datagram_size wire))
          ∙ (take-take 4 datagram_size wire (omega arith)
              ∙ sym (ap (take 4) (ev.bytes-of_bytes wire)))) in
        let received : length (ev.bytes cut) ≡ 2048 =
          ap length (ev.bytes-of_bytes (take datagram_size wire))
          ∙ (length-take datagram_size wire ∙ omega (arith, long)) in
        let misfit : is_misfit (length (ev.bytes cut)) (get_package_size ev cut) ≡ true =
          cut_misfits (length (ev.bytes cut)) (length wire) (get_package_size ev cut) received
            (ap (λ n. n + 4) same ∙ sized) long short in
        rw misfit refl

  -- What the command socket makes of a datagram that is exactly the bytes, fewer than 2^31, of a
  -- serialized event with a readable header and a payload of its type. One of at most 2048 bytes is
  -- dispatched as that very event, with no connection and with the client of its UID, if there is an
  -- active one; the answer is the dispatch's. A longer one is cut when it is received, and dropped:
  -- nothing changes and nothing is answered.
  pub udp_readcb-serialize :
      (h : EventHeader) (p : Param fl.F) (wire : Bytes) (w : World fl.F)
      → IsReadable h
      → IsCodable h.type p
      → serialize_event mp (record { header = h; param = p }) ≡ some wire
      → length wire < 2 ^ 31
      → udp_readcb fl env mp ev (some wire) w ≡ (
          if leb (length wire) datagram_size
          then answer fl env mp ev (
              process_server_event fl env none
                (record { header = h; param = p })
                (address fl env mp ev (find_by_uid w.clients h.uid))
                w)
          else some (w, none))
  unfolding udp_readcb
  udp_readcb-serialize h p wire w readable codable written short =
      elim (Bool-cases (leb (length wire) datagram_size)) [
        | inl fits ↦ rw fits (
            received-serialize h p wire w readable codable written
              (ev.of_bytes (take datagram_size wire)) short
              (ev.bytes-of_bytes (take datagram_size wire)
                ∙ take_all datagram_size wire (ground (arith, fits))))
        | inr long ↦
            rw long (cut-serialize h p wire w readable codable written (ground (arith, long)) short)
      ]
