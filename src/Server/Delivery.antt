-- ===== src/Server/Delivery.antt =====
-- What the client of a stream is sent for one request (crates/router/src/server.rs).
use dynamo_router.Base.{
  ℕ, suc, ◌≤◌, ◌≡◌, refl, sym, ap, ◌∙◌, subst, Bool, true, false, none, List, [], ◌∷◌, ◌++◌, map,
  arith, length, All, take,
}
use dynamo_router.Text.{Text, codes}
use dynamo_router.Protocol.{ModelStreamInferResponse}
use dynamo_router.Rpc.{Status, Result, ok, err, Packages, fmt_status, is_transport_failure}
use dynamo_router.Task.{Stream, ends, yields, closed, broken, Op, ret, perform, ◌>>=◌}
use dynamo_router.Task.Trace.{
  Event, did, Always, bind-Always, Always-mono, if-Always, append_nil, append_assoc, gather_snoc,
  Sent, send_of, sends,
}
use dynamo_router.Server.Streams.{send_error, forward_chunks, mark_if_transport, forward}

abbrev Item : Type 0
Item = Result ModelStreamInferResponse

abbrev pub error_item : Text → Item
error_item message = ok (record { error_message = message; infer_response = none })

-- The upstream's chunks in order, and its error at the end if it has one.
abbrev pub chunk_items : Packages → Stream ModelStreamInferResponse → List Item
chunk_items pkg (ends closed) = []
chunk_items pkg (ends (broken status)) =
    error_item (codes "upstream: " ++ fmt_status pkg status) ∷ []
chunk_items pkg (yields chunk rest) = ok chunk ∷ chunk_items pkg rest

abbrev pub upstream_items : Packages → Result (Stream ModelStreamInferResponse) → List Item
upstream_items pkg (ok chunks) = chunk_items pkg chunks
upstream_items pkg (err status) =
    error_item (codes "upstream connect: " ++ fmt_status pkg status) ∷ []

-- How many of these are chunks: the others are error messages.
abbrev pub chunk_count : Stream ModelStreamInferResponse → ℕ
chunk_count (ends e) = 0
chunk_count (yields chunk rest) = suc (chunk_count rest)

abbrev pub upstream_chunks : Result (Stream ModelStreamInferResponse) → ℕ
upstream_chunks (ok chunks) = chunk_count chunks
upstream_chunks (err status) = 0

abbrev WasThere : Sent → Type 0
WasThere x = x.1 ≡ true

-- The sends `xs`, with whether each found the client there, of what is expected: so many chunks, and
-- perhaps an error message behind them.
pub record Delivers (chunks : ℕ) (expected : List Item) (xs : List Sent) (here : Bool)
    : Type 0 where
  pub in_order : map (λ (x : Sent). x.0) xs ≡ take (length xs) expected
  -- Nothing is left out, and each chunk's send found the client there.
  pub whole : here ≡ true → (length xs ≡ length expected) × All WasThere (take chunks xs)
  -- The last send was a chunk's and found the client gone, and each before it found the client there.
  pub stopped :
      here ≡ false
      → (length xs ≤ chunks)
        × ((before : List Sent) × (item : Item) × (xs ≡ before ++ (item, false) ∷ [])
            × All WasThere before)

none-Delivers : Delivers 0 [] [] true
none-Delivers = record { in_order = refl; whole = λ e. (refl, tt); stopped = λ e. absurd (cc) }

last-Delivers : (item : Item) (r : Bool) → Delivers 0 (item ∷ []) ((item, r) ∷ []) true
last-Delivers item r = record {
  in_order = refl;
  whole = λ e. (refl, tt);
  stopped = λ e. absurd (cc);
}

gone-Delivers :
    (chunks : ℕ) (item : Item) (rest : List Item)
    → Delivers (suc chunks) (item ∷ rest) ((item, false) ∷ []) false
gone-Delivers chunks item rest = record {
  in_order = refl;
  whole = λ e. absurd (cc);
  stopped = λ e. (omega arith, ([], item, refl, tt));
}

next-Delivers :
    (chunks : ℕ) (item : Item) (rest : List Item) (xs : List Sent) (here : Bool)
    → Delivers chunks rest xs here
    → Delivers (suc chunks) (item ∷ rest) ((item, true) ∷ xs) here
next-Delivers chunks item rest xs here d = record {
  in_order = ap (◌∷◌ item) d.in_order;
  whole = λ e. let (all_sent, there) = d.whole e in (ap suc all_sent, (refl, there));
  stopped = λ e.
      let (few, (before, last, same, all)) = d.stopped e in
      (omega (arith, few), ((item, true) ∷ before, last, ap (◌∷◌ (item, true)) same, (refl, all)));
}

module _ (pkg : Packages) where
  -- After the sends `sent`, what is expected is delivered.
  abbrev Then : ℕ → List Item → List Sent → List Event → Bool → Type 0
  Then chunks expected sent done here =
      (xs : List Sent) × (sends done ≡ sent ++ xs) × Delivers chunks expected xs here

  sent_one :
      (done : List Event) (sent : List Sent) (item : Item) (r : Bool)
      → sends done ≡ sent
      → sends (done ++ did (Op.send item) r ∷ []) ≡ sent ++ (item, r) ∷ []
  sent_one done sent item r e =
      gather_snoc send_of done (did (Op.send item) r) ∙ ap (λ xs. xs ++ (item, r) ∷ []) e

  forward_chunks-Then :
      (chunks : Stream ModelStreamInferResponse) (done : List Event) (sent : List Sent)
      → sends done ≡ sent
      → Always
          (Then (chunk_count chunks) (chunk_items pkg chunks) sent)
          done
          (forward_chunks pkg chunks)
  unfolding forward_chunks send_error ◌>>=◌
  forward_chunks-Then (ends closed) done sent e = ([], e ∙ sym (append_nil sent), none-Delivers)
  forward_chunks-Then (ends (broken status)) done sent e =
      λ r. ((_, r) ∷ [], sent_one done sent _ r e, last-Delivers _ r)
  forward_chunks-Then (yields chunk rest) done sent e = λ here.
      if-Always _ _ here _ _
        (λ is.
          Always-mono _ _ _ (forward_chunks pkg rest)
            (λ done' h t. (
              (ok chunk, true) ∷ t.0,
              t.1 ∙ append_assoc sent ((ok chunk, true) ∷ []) t.0,
              next-Delivers (chunk_count rest) (ok chunk) (chunk_items pkg rest) t.0 h t.2,
            ))
            (forward_chunks-Then rest _ _
              (sent_one done sent (ok chunk) here e ∙ ap (λ b. sent ++ (ok chunk, b) ∷ []) is)))
        (λ is. (
          (ok chunk, false) ∷ [],
          sent_one done sent (ok chunk) here e ∙ ap (λ b. sent ++ (ok chunk, b) ∷ []) is,
          gone-Delivers (chunk_count rest) (ok chunk) (chunk_items pkg rest),
        ))

  mark-sends :
      (i : ℕ) (status : Status)
      → Always (λ done u. sends done ≡ []) [] (mark_if_transport pkg i status)
  unfolding mark_if_transport
  mark-sends i status =
      if-Always (λ done u. sends done ≡ []) [] (is_transport_failure pkg status)
        (perform (Op.mark_unhealthy i)) (ret tt) (λ e r. refl) (λ e. refl)

  -- On every path, what a request's client is sent for the upstream's reply are the upstream's chunks
  -- in their order, and then its error if it broke, or the error of a stream that was not opened. If
  -- the handler takes the client to be there still, all of this was sent, and the send of each chunk
  -- found the client there. If not, the last send was a chunk's and found the client gone, and every
  -- send before it found the client there. So nothing is sent after a chunk whose send found the
  -- client gone.
  pub forward-Delivers :
      (i : ℕ) (upstream : Result (Stream ModelStreamInferResponse))
      → Always
          (λ done here.
            Delivers (upstream_chunks upstream) (upstream_items pkg upstream) (sends done) here)
          []
          (forward pkg i upstream)
  unfolding forward send_error ◌>>=◌
  forward-Delivers i (ok chunks) =
      Always-mono (Then (chunk_count chunks) (chunk_items pkg chunks) []) _ []
        (forward_chunks pkg chunks)
        (λ done here t.
          subst (λ xs. Delivers (chunk_count chunks) (chunk_items pkg chunks) xs here) (sym t.1)
            t.2)
        (forward_chunks-Then chunks [] [] refl)
  forward-Delivers i (err status) = bind-Always _ _ [] (mark_if_transport pkg i status) (
      Always-mono _ _ [] (mark_if_transport pkg i status)
        (λ done u e r.
          subst
            (λ xs.
              Delivers 0 (error_item (codes "upstream connect: " ++ fmt_status pkg status) ∷ []) xs
                true)
            (sym (sent_one done [] _ r e)) (last-Delivers _ r))
        (mark-sends i status))
