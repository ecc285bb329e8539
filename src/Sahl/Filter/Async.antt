-- ===== src/Sahl/Filter/Async.antt =====
-- The callbacks of sahl/filter.go that answer a callout, a stream or a goroutine of the handler.
use luwes.Base.{ℕ, Bool, true, not, none, some, List, [], ◌++◌, if◌then◌else◌}
use luwes.Base.Bytes.{Bytes}
use luwes.Shared.Base.{HttpStreamResetReason}
use luwes.Sahl.Host.{Pair, HostCall, Call, CalloutDone, HttpStreamEvent}
use luwes.Sahl.Writer.{Writer, Result, ok, ◌>>=◌, run, flush}
use luwes.Sahl.Filter.{Filter, Closures}

-- A closure runs, and the writer is flushed.
unfoldable pub run_and_flush : List Call → Writer → Filter → Result (Filter × List HostCall)
unfolding run flush
run_and_flush calls w f =
    run calls w >>= λ s. ok (record f { writer = some s.0 }, s.1 ++ flush true s.0)

module _ (env : Closures) where
  -- `OnHttpCalloutDone`.
  unfoldable pub on_http_callout_done : CalloutDone → Filter → Result (Filter × List HostCall)
  unfolding run_and_flush
  on_http_callout_done done f = if f.stream_done then ok (f, []) else elim f.writer [
    | none ↦ ok (f, [])
    | some w ↦ elim w.callout_fn [
      | none ↦ ok (f, [])
      | some fn ↦
          let w' : Writer = record w { callout_fn = none } in
          run_and_flush (env.on_done fn done w') w' f
    ]
  ]

  -- The event function of a stream, if there is one.
  unfoldable pub deliver : HttpStreamEvent → Filter → Result (Filter × List HostCall)
  unfolding run
  deliver event f = elim f.writer [
    | none ↦ ok (f, [])
    | some w ↦ elim w.stream_event_fn [
      | none ↦ ok (f, [])
      | some fn ↦ run (env.on_event fn event w) w >>= λ s. ok (record f { writer = some s.0 }, s.1)
    ]
  ]

  unfoldable pub on_http_stream_headers :
      ℕ → List Pair → Bool → Filter → Result (Filter × List HostCall)
  unfolding deliver
  on_http_stream_headers stream_id headers end_stream =
      deliver (HttpStreamEvent.headers stream_id headers end_stream)

  unfoldable pub on_http_stream_data :
      ℕ → List Bytes → Bool → Filter → Result (Filter × List HostCall)
  unfolding deliver
  on_http_stream_data stream_id body end_stream =
      deliver (HttpStreamEvent.payload stream_id body end_stream)

  unfoldable pub on_http_stream_trailers : ℕ → List Pair → Filter → Result (Filter × List HostCall)
  unfolding deliver
  on_http_stream_trailers stream_id trailers = deliver (HttpStreamEvent.trailers stream_id trailers)

  -- `OnHttpStreamComplete`: it flushes also where no event function is left.
  unfoldable pub on_http_stream_complete : ℕ → Filter → Result (Filter × List HostCall)
  unfolding run flush
  on_http_stream_complete stream_id f = if f.stream_done then ok (f, []) else elim f.writer [
    | none ↦ ok (f, [])
    | some w ↦ elim w.stream_event_fn [
      | none ↦ ok (f, flush true w)
      | some fn ↦ run (env.on_event fn (HttpStreamEvent.complete stream_id) w) w >>= λ s.
          let w' : Writer = record (s.0) { stream_event_fn = none } in
          ok (record f { writer = some w' }, s.1 ++ flush true w')
    ]
  ]

  -- `OnHttpStreamReset`.
  unfoldable pub on_http_stream_reset :
      ℕ → HttpStreamResetReason → Filter → Result (Filter × List HostCall)
  unfolding run flush
  on_http_stream_reset stream_id reason f = if f.stream_done then ok (f, []) else elim f.writer [
    | none ↦ ok (f, [])
    | some w ↦ elim w.stream_event_fn [
      | none ↦ ok (f, [])
      | some fn ↦ run (env.on_event fn (HttpStreamEvent.reset stream_id reason) w) w >>= λ s.
          let w' : Writer = record (s.0) { stream_event_fn = none } in
          ok (record f { writer = some w' }, s.1 ++ flush (not w'.responded) w')
    ]
  ]

-- The goroutine of `Go`: the calls that its function makes, and then the task that it schedules.
unfoldable pub goroutine : List Call → Filter → Result (Filter × List HostCall)
unfolding run_and_flush
goroutine calls f = elim f.writer [ none ↦ ok (f, []) | some w ↦ run_and_flush calls w f ]
