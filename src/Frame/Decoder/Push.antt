-- ===== src/Frame/Decoder/Push.antt =====
-- `push` of crates/layline-core/src/frame.rs appends to the queue of pending bytes.
use layline.Prelude.{ℕ, ◌+◌, ◌-◌, ◌≤◌, min, List, ◌++◌}
use layline.Prelude.{length, take, drop, saturating_add}
use layline.Prelude.{arith, ◌≡◌, ap, sym, ◌∙◌, append_assoc}
use layline.Prelude.{length-append, length-take, length-drop, take-append}
use layline.Frame.Decoder.{Decoder, Stats, release, push}
use layline.Frame.Decoder.Stream.{contents, pending, IsValid, length-contents, release-IsReleased}

-- The bytes of `push` from the buffer's side.
appended : Decoder → ℕ → List ℕ → List ℕ
appended r taken bytes = take r.len r.buf ++ (take taken bytes ++ drop (r.len + taken) r.buf)

module _ {n : ℕ} (r : Decoder) (v : IsValid n r) (taken : ℕ) (bytes : List ℕ)
    (room : r.len + taken ≤ n) (enough : taken ≤ length bytes) where
  length-appended : length (appended r taken bytes) ≡ n
  unfolding appended
  length-appended = omega (
    arith,
    length-append (contents r) (take taken bytes ++ drop (r.len + taken) r.buf),
    length-append (take taken bytes) (drop (r.len + taken) r.buf),
    length-contents r v,
    length-take taken bytes,
    length-drop (r.len + taken) r.buf,
    v,
  )

  take-appended : take (r.len + taken) (appended r taken bytes) ≡ contents r ++ take taken bytes
  unfolding appended
  take-appended =
      let front = contents r ++ take taken bytes in
      let e : length front ≡ r.len + taken = omega (
        arith,
        length-append (contents r) (take taken bytes),
        length-contents r v,
        length-take taken bytes,
      ) in
      rw (append_assoc, e) at (take-append front (drop (r.len + taken) r.buf))

-- On a valid decoder of capacity `n`, `push` takes as many of the bytes as the buffer has room for
-- once the last frame is dropped, puts exactly those behind the pending bytes, counts the others as
-- refused and leaves the decoder valid.
pub push_lem :
    {n : ℕ} (bytes : List ℕ) (d : Decoder)
    → IsValid n d
    → let (d', taken) = push n bytes d in
      (taken ≡ min (n - length (pending d)) (length bytes))
      × (pending d' ≡ pending d ++ take taken bytes)
      × (d'.stats.bytes_refused ≡ saturating_add d.stats.bytes_refused (length bytes - taken))
      × (d'.stats.bytes_discarded ≡ d.stats.bytes_discarded)
      × IsValid n d'
unfolding push appended
push_lem {n} bytes d v =
    let rel = release-IsReleased d v in
    let r = release d in
    let taken = min (n - r.len) (length bytes) in
    let room : r.len + taken ≤ n = omega (arith, rel.valid) in
    let enough : taken ≤ length bytes = omega arith in
    let same_length : r.len ≡ length (pending d) =
      sym (length-contents r rel.valid) ∙ ap length rel.same_bytes in
    let taken_is : taken ≡ min (n - length (pending d)) (length bytes) =
      ap (λ k. min (n - k) (length bytes)) same_length in
    (
      taken_is,
      ap (λ k. drop k (take (r.len + taken) (appended r taken bytes))) rel.unspent
          ∙ take-appended r rel.valid taken bytes room enough
          ∙ ap (λ l. l ++ take taken bytes) rel.same_bytes,
      ap (λ (st : Stats). saturating_add st.bytes_refused (length bytes - taken)) rel.same_stats,
      ap (λ (st : Stats). st.bytes_discarded) rel.same_stats,
      record {
        array = length-appended r rel.valid taken bytes room enough;
        fits = room;
        within = omega (arith, rel.unspent);
        counter = rel.valid.counter;
      },
    )
