-- ===== src/Image/Received.antt =====
-- What the receiver appends behind the waiting frames joins them, and a poll delivers it.
use aeron_rs.Prelude.{
  ℕ, ◌+◌, ◌*◌, ◌%◌, ◌^◌, ◌≤◌, ◌<◌, ◌≡◌, refl, sym, ap, ap₂, ◌∙◌, ◌⊎◌, inl, inr, List, [], ◌∷◌, ◌++◌,
  arith, length, false, map, length-map, length-append,
}
use mathlib.Core.List.{append-nil, append_assoc}
use mathlib.Core.Path.{subst}
use aeron_rs.Prelude.Memory.{write_bytes, write_bytes_apart}
use aeron_rs.Frame.Data.{DataHeader}
use aeron_rs.Log.{ok, err, term_full}
use aeron_rs.Log.Append.{frame_of, end_of, Laid-write}
use aeron_rs.Log.Stores.{frame_stores}
use aeron_rs.Image.{
  ImageInner, ReceiverImage, SubscriberImage, append_frame, advance_receiver_position,
  poll_fragments, fragments_of, with_buffer,
}
use aeron_rs.Image.Polled.{messages, is_pad}
use aeron_rs.Image.Waiting.{Waits, poll_fragments_lem}

-- The header as it is stored, with the length of the frame.
abbrev pub stored : DataHeader → List ℕ → DataHeader
stored header payload = record header {
  frame_header = record header.frame_header { frame_length = (32 + length payload) % 2 ^ 32 };
}

append_fits :
    (inner : ImageInner) (idx off : ℕ) (header : DataHeader) (payload : List ℕ)
    → idx < 4
    → inner.term_length ≤ 2 ^ 30
    → off ≤ inner.term_length
    → length payload < 2 ^ 30
    → end_of off payload ≤ inner.term_length
    → append_frame inner idx off header payload ≡ (
      ok (end_of off payload),
      with_buffer inner (
          write_bytes inner.log.buffer
            (idx * inner.term_length + off)
            (frame_of (stored header payload) payload)),
    )
unfolding append_frame
append_fits inner idx off header payload i l o small fits =
    rw
      (← (
        frame_stores inner.log.buffer (idx * inner.term_length + off) header
          ((32 + length payload) % 2 ^ 32) payload))
      (ground arith)

append_full :
    (inner : ImageInner) (idx off : ℕ) (header : DataHeader) (payload : List ℕ)
    → idx < 4
    → inner.term_length ≤ 2 ^ 30
    → off ≤ inner.term_length
    → length payload < 2 ^ 30
    → inner.term_length < end_of off payload
    → append_frame inner idx off header payload ≡ (err term_full, inner)
unfolding append_frame
append_full inner idx off header payload i l o small full = ground arith

-- Frames behind one another: each is a message that fits the term, with a type that is no pad's.
abbrev pub AllFit : ℕ → ℕ → List (DataHeader × List ℕ) → Type 0
AllFit term_length end [] = Unit
AllFit term_length end ((header, payload) ∷ ms) =
    (length payload < 2 ^ 30)
    × (end_of end payload ≤ term_length)
    × (0 < header.frame_header.frame_type)
    × (header.frame_header.frame_type < 2 ^ 16)
    × AllFit term_length (end_of end payload) ms

-- The receiver appends each message behind the last in term `t`, and advances to its end.
unfoldable pub receive :
    ImageInner → ReceiverImage → ℕ → ℕ → List (DataHeader × List ℕ) → ImageInner × ReceiverImage
receive inner r t end [] = (inner, r)
receive inner r t end ((header, payload) ∷ ms) =
    let (outcome, written) = append_frame inner (t % 4) end header payload in
    let (inner', r') =
      advance_receiver_position written r (t * inner.term_length + end_of end payload) in
    receive inner' r' t (end_of end payload) ms

-- The frames that the messages become.
abbrev pub frames_of : List (DataHeader × List ℕ) → List (List ℕ)
frames_of ms = map (λ m. frame_of (stored m.0 m.1) m.1) ms

abbrev pub arrived : ImageInner → ReceiverImage → ℕ → ℕ → DataHeader → List ℕ → ImageInner
arrived inner r t end header payload = record inner {
  log = record inner.log {
    buffer =
        write_bytes inner.log.buffer (t % 4 * inner.term_length + end)
          (frame_of (stored header payload) payload);
  };
  receiver_position = t * inner.term_length + end_of end payload;
}

abbrev pub reached : ImageInner → ℕ → ℕ → List ℕ → ReceiverImage
reached inner t end payload = record {
  receiver_position_local = t * inner.term_length + end_of end payload;
}

append-Waits :
    (inner : ImageInner) (r : ReceiverImage) (s : SubscriberImage) (t off end : ℕ)
    (fs : List (List ℕ)) (header : DataHeader) (payload : List ℕ)
    → Waits inner s t off fs end
    → length payload < 2 ^ 30
    → end_of end payload ≤ inner.term_length
    → Waits
        (arrived inner r t end header payload)
        s
        t
        off
        (fs ++ frame_of (stored header payload) payload ∷ [])
        (end_of end payload)
append-Waits inner r s t off end fs header payload w small fits = record {
  power = w.power;
  aligned = w.aligned;
  large = w.large;
  log = w.log;
  mask = w.mask;
  initial = w.initial;
  term = w.term;
  inside = w.inside;
  subscriber = w.subscriber;
  receiver = refl;
  end_in = fits;
  end_aligned = omega (arith, w.end_aligned);
  laid =
      Laid-write inner.log.buffer (t % 4 * inner.term_length) end off (stored header payload)
        payload fs (omega (arith, small)) (omega (arith, small)) w.laid;
  clean = λ x lo hi.
      write_bytes_apart inner.log.buffer (t % 4 * inner.term_length + end)
        (frame_of (stored header payload) payload) x (inr (omega (arith, lo)))
      ∙ w.clean x (omega (arith, lo)) hi;
}

pub receive_step :
    (inner : ImageInner) (r : ReceiverImage) (t end : ℕ) (header : DataHeader) (payload : List ℕ)
    (ms : List (DataHeader × List ℕ))
    → inner.term_length ≤ 2 ^ 30
    → end ≤ inner.term_length
    → length payload < 2 ^ 30
    → end_of end payload ≤ inner.term_length
    → receive inner r t end ((header, payload) ∷ ms)
      ≡ receive
          (arrived inner r t end header payload)
          (reached inner t end payload)
          t
          (end_of end payload)
          ms
unfolding receive advance_receiver_position
receive_step inner r t end header payload ms large inside small fits =
    ap
      (λ z.
        receive (record z.1 { receiver_position = t * inner.term_length + end_of end payload })
          (reached inner t end payload) t (end_of end payload) ms)
      (append_fits inner (t % 4) end header payload (omega arith) large inside small fits)

-- The frames `fs` and those of the messages wait in the image of the same stream.
abbrev pub Extended :
    ImageInner
    → SubscriberImage
    → ℕ
    → ℕ
    → List (List ℕ)
    → List (DataHeader × List ℕ)
    → ImageInner × ReceiverImage
    → Type 0
Extended inner s t off fs ms (inner', r') =
    (end : ℕ) × Waits inner' s t off (fs ++ frames_of ms) end
    × (inner'.session_id ≡ inner.session_id)
    × (inner'.stream_id ≡ inner.stream_id)

pub receive-Waits :
    (inner : ImageInner) (r : ReceiverImage) (s : SubscriberImage) (t off end : ℕ)
    (fs : List (List ℕ)) (ms : List (DataHeader × List ℕ))
    → Waits inner s t off fs end
    → AllFit inner.term_length end ms
    → Extended inner s t off fs ms (receive inner r t end ms)
unfolding receive
receive-Waits inner r s t off end fs [] w fit =
    (end, subst (λ l. Waits inner s t off l end) (sym (append-nil fs)) w, refl, refl)
receive-Waits inner r s t off end fs ((header, payload) ∷ ms) w (small, fits, kind, bound, more) =
    let one = append-Waits inner r s t off end fs header payload w small fits in
    let (end', w', session, stream) =
      receive-Waits (arrived inner r t end header payload) (reached inner t end payload) s t off
        (end_of end payload) (fs ++ frame_of (stored header payload) payload ∷ []) ms one more in
    subst (Extended inner s t off fs ((header, payload) ∷ ms))
      (sym (receive_step inner r t end header payload ms w.large w.end_in small fits))
      (
        end',
        subst
            (λ l.
              Waits
                (receive (arrived inner r t end header payload) (reached inner t end payload) t
                  (end_of end payload) ms).0
                s t off l end')
            (append_assoc fs (frame_of (stored header payload) payload ∷ []) (frames_of ms)) w',
        session,
        stream,
      )

messages-frames_of :
    (term_length end : ℕ) (ms : List (DataHeader × List ℕ))
    → AllFit term_length end ms
    → messages (frames_of ms) ≡ map (λ m. m.1) ms
unfolding messages
messages-frames_of term_length end [] fit = refl
messages-frames_of term_length end ((header, payload) ∷ ms) (small, fits, kind, bound, more) =
    let e : is_pad (frame_of (stored header payload) payload) ≡ false = ground arith in
    rw e (ap (◌∷◌ payload) (messages-frames_of term_length (end_of end payload) ms more))

fragments_of_same :
    (inner inner' : ImageInner) (payloads : List (List ℕ))
    → inner'.session_id ≡ inner.session_id
    → inner'.stream_id ≡ inner.stream_id
    → fragments_of inner' payloads ≡ fragments_of inner payloads
fragments_of_same inner inner' [] e f = refl
fragments_of_same inner inner' (p ∷ ps) e f =
    ap₂ ◌∷◌ (ap₂ (λ a b. record { payload = p; session_id = a; stream_id = b }) e f)
      (fragments_of_same inner inner' ps e f)

length-messages : (fs : List (List ℕ)) → length (messages fs) ≤ length fs
unfolding messages
length-messages [] = omega arith
length-messages (f ∷ fs) = ground (arith, length-messages fs)

-- A poll whose limit is not below the number of frames takes all of them.
all_taken :
    (limit : ℕ) (fs took rest : List (List ℕ))
    → fs ≡ took ++ rest
    → length fs ≤ limit
    → (rest ≡ []) ⊎ (limit ≤ length (messages took))
    → took ≡ fs
all_taken limit fs took [] e le why = sym (e ∙ append-nil took)
all_taken limit fs took (f ∷ rest) e le (inl none) = absurd (ground (arith, none))
all_taken limit fs took (f ∷ rest) e le (inr full) =
    absurd
      (omega (arith, ap length e, length-append took (f ∷ rest), length-messages took, le, full))

-- Nothing waits for the subscriber of an image. The receiver appends messages that fit the rest of
-- the term behind one another, none of them a pad, and advances behind each. Then a poll whose limit
-- is not below their number delivers their payloads in that order, with the ids of the image, and
-- returns how many they are.
pub received_is_polled :
    (inner : ImageInner) (r : ReceiverImage) (s : SubscriberImage) (t off limit : ℕ)
    (ms : List (DataHeader × List ℕ))
    → Waits inner s t off [] off
    → AllFit inner.term_length off ms
    → 0 < limit
    → length ms ≤ limit
    → limit < 2 ^ 31
    → (poll_fragments (receive inner r t off ms).0 s limit).0
      ≡ (fragments_of inner (map (λ m. m.1) ms), length ms)
received_is_polled inner r s t off limit ms w fit pos room bound =
    let (end, w', session, stream) = receive-Waits inner r s t off off [] ms w fit in
    let (took, rest, n, e, frags, count, why, at, next) =
      poll_fragments_lem (receive inner r t off ms).0 s t off (frames_of ms) end w' limit pos
        bound in
    let all =
      all_taken limit (frames_of ms) took rest e
        (omega (arith, length-map (λ m. frame_of (stored m.0 m.1) m.1) ms, room))
        (rw count at why) in
    let sent = ap messages all ∙ messages-frames_of inner.term_length off ms fit in
    ap₂ (λ a b. (a, b))
      (frags
        ∙ ap (fragments_of (receive inner r t off ms).0) sent
        ∙ fragments_of_same inner (receive inner r t off ms).0 (map (λ m. m.1) ms) session stream)
      (count ∙ ap length sent ∙ length-map (λ m. m.1) ms)
