-- ===== src/Engine/Delivery/Stream.antt =====
-- From the replication stream to the cloud database: the subscriber, the channel, the engine and the
-- publisher together.
use mathlib.Core.List.{Sublist}
use cloud_comp_project.Base.{ℕ, ◌<◌, ◌≡◌, sym, ap, ◌∙◌, some, List, [], ◌++◌}
use cloud_comp_project.Interfaces.{ChangeEvent}
use cloud_comp_project.Replication.Sql.{Statement}
use cloud_comp_project.Replication.Publisher.{Pool, PublisherError}
use cloud_comp_project.Replication.Publisher.Rounds.{IsTransactional, statements}
use cloud_comp_project.Replication.Subscriber.{Subscriber, Postgres}
use cloud_comp_project.Replication.Subscriber.Stream.{consume_stream}
use cloud_comp_project.Replication.Subscriber.Stream.Events.{HasReader, consume_stream_fills}
use cloud_comp_project.Replication.Subscriber.Stream.Transactions.{
  Transaction, AreWhole, sent_messages, transaction_events,
}
use cloud_comp_project.Engine.{Environment, Engine}
use cloud_comp_project.Engine.Views.{IsUntouched}
use cloud_comp_project.Engine.Delivery.Postgres.{over_pool, loop_delivers}
use cloud_comp_project.Engine.Loop.{Input, loop}
use cloud_comp_project.Engine.Loop.Rule.{taken, engine_of, world_of}

module _ {W T E W' E' : Type 0} (env : Environment W (PublisherError E)) (pool : Pool W T E)
    (committed pending : W → List Statement)
    (transactional : IsTransactional pool committed pending) (size : ℕ) (positive : 0 < size)
    (untouched : IsUntouched (over_pool env pool size) committed)
    (close_keeps : (w : W) → committed (env.subscriber.close w).1 ≡ committed w)
    (pg : Postgres W' E') (offer : ChangeEvent → W' → W') (channel : W' → List ChangeEvent)
    (reader : HasReader pg offer (λ ev. ev) channel) where
  -- The subscriber reads a stream of whole transactions and sends its events on an empty channel,
  -- from which an engine with an empty buffer takes them all, with ticks and the end of the channel
  -- or of the context anywhere between and behind them. Then at the end of the loop, whichever
  -- calls fail, the events done and those in the buffer are together the events of the stream: one
  -- for each inserted, updated or deleted row, in order, with the position and the time of its
  -- transaction, and the table and the rows as the latest relation message names them. The cloud
  -- database has committed the statements of the events done, in order, each at least once.
  pub stream_delivers :
      (ts : List Transaction) (s : Subscriber) (w' : W') (inputs : List Input) (e : Engine) (w : W)
      → AreWhole ts
      → channel w' ≡ []
      → e.buffer ≡ []
      → taken inputs ≡ channel (consume_stream pg offer (sent_messages ts) s w').1
      → let end = loop (over_pool env pool size) e w inputs in
        (done : List ChangeEvent) × (new : List Statement) × (ss : List Statement)
        × (transaction_events s.relations ts ≡ done ++ (engine_of end).buffer)
        × (committed (world_of end) ≡ committed w ++ new)
        × (statements done ≡ some ss)
        × Sublist ss new
  stream_delivers ts s w' inputs e w whole fresh empty all =
      let (done, new, ss, parts, log, d, built, sub) =
        loop_delivers env pool committed pending transactional size positive untouched close_keeps
          inputs e w in
      let emitted = consume_stream_fills pg offer channel reader ts s w' whole fresh in
      (
        done,
        new,
        ss,
        sym (parts ∙ ap (λ l. l ++ taken inputs) empty ∙ all ∙ emitted),
        log,
        built,
        sub,
      )
