-- ===== src/Transport/Pipelining.antt =====
-- Messages written one after the other to src/transport.rs are read back in order.
use nexus_intelli_core.Prelude.{
  ℕ, zero, suc, List, [], ◌∷◌, ◌++◌, length, append_assoc, append-nil, map, ◌≡◌, refl, sym, ap, ◌∙◌,
  All,
}
use nexus_intelli_core.Prelude.Text.{codes}
use nexus_intelli_core.Json.{Value}
use nexus_intelli_core.Transport.{
  Outcome, message, closed, McpTransport, Codec, new, read_headers_loop, read_headers, read_message,
  after_headers, frame, write_message,
}
use nexus_intelli_core.Transport.Framing.{IsSendable, framed, read_message-frame}

module _ (cd : Codec) where
  -- Messages written one after the other to a fresh transport, as one sequence of bytes.
  unfoldable pub write_all : List Value → McpTransport → McpTransport
  write_all [] t = t
  write_all (v ∷ vs) t = write_all vs (write_message cd v t)

  -- A client that reads n messages, and the state it is then in.
  unfoldable pub read_n : ℕ → McpTransport → List Outcome × McpTransport
  read_n zero t = ([], t)
  read_n (suc n) t =
      let (out, t') = read_message cd t in let (outs, t'') = read_n n t' in (out ∷ outs, t'')

module _ (cd : Codec)
    (lower : cd.to_lowercase (codes "Content-Length") ≡ codes "content-length") where
  frames : List Value → List ℕ
  frames [] = []
  frames (v ∷ vs) = frame cd (cd.to_vec v) ++ frames vs

  write_all-frames :
      (vs : List Value) (r w : List ℕ) → write_all cd vs (framed r w) ≡ framed r (w ++ frames vs)
  unfolding write_all write_message frames
  write_all-frames [] r w = ap (framed r) (sym (append-nil w))
  write_all-frames (v ∷ vs) r w =
      write_all-frames vs r (w ++ frame cd (cd.to_vec v))
      ∙ ap (framed r) (append_assoc w (frame cd (cd.to_vec v)) (frames vs))

  read_n-frames :
      (vs : List Value) (w : List ℕ)
      → All (IsSendable cd) vs
      → read_n cd (suc (length vs)) (framed (frames vs) w)
        ≡ (map message vs ++ (closed ∷ []), framed [] w)
  unfolding read_n frames read_message read_headers read_headers_loop after_headers
  read_n-frames [] w h = refl
  read_n-frames (v ∷ vs) w (h, hs) =
      rw (read_message-frame cd lower v (frames vs) w h)
        (ap (λ p. (message v ∷ p.0, p.1)) (read_n-frames vs w hs))

  -- Messages whose texts are not empty, fit the limit and are read back as themselves: written one
  -- after the other to a fresh transport, the bytes are read as the same messages in the same
  -- order, and then as the end of the input, with no byte lost between them.
  pub pipelined_round_trip :
      (vs : List Value)
      → All (IsSendable cd) vs
      → read_n cd (suc (length vs)) (new (write_all cd vs (new [])).writer)
        ≡ (map message vs ++ (closed ∷ []), new [])
  unfolding new
  pipelined_round_trip vs h =
      ap (λ t. read_n cd (suc (length vs)) (new t.writer)) (write_all-frames vs [] [])
      ∙ read_n-frames vs [] h
