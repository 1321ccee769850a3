-- ===== src/Queue/Subscriptions.antt =====
-- lib/queue.js: the consumers of a queue, and the choice of the listener of a message.
use node_amqp.Prelude.{ℕ, ◌==◌, List, [], ◌∷◌, Option, none, some, if◌then◌else◌}

-- `consumerTagOptions[tag]['state']`
pub data ConsumerState : Type 0 where
  opening consuming closed : ConsumerState

-- The entries of `consumerTagListeners` and `consumerTagOptions` under one tag: a listener is written by
-- its number, and `prefetch` is `prefetchCount`. Each subscription has an options object of its own, as
-- `subscribe` makes it.
pub record Consumer : Type 0 where
  pub tag : ℕ
  pub listener : ℕ
  pub prefetch : Option ℕ
  pub state : ConsumerState

-- `delete` under a tag.
unfoldable pub forget : ℕ → List Consumer → List Consumer
forget tag [] = []
forget tag (c ∷ cs) = let rest = forget tag cs in if c.tag == tag then rest else c ∷ rest

-- `consumerTagOptions[tag]['state'] = 'open'`, and whether there is such an entry.
unfoldable pub set_consuming : ℕ → List Consumer → List Consumer
set_consuming tag [] = []
set_consuming tag (c ∷ cs) =
    let rest = set_consuming tag cs in
    if c.tag == tag then record c { state = consuming } ∷ rest else c ∷ rest

unfoldable pub find_consumer : ℕ → List Consumer → Option Consumer
find_consumer tag [] = none
find_consumer tag (c ∷ cs) =
    let later = find_consumer tag cs in if c.tag == tag then some c else later

-- `Object.keys(consumerTagListeners)`
abbrev pub tags_of : List Consumer → List ℕ
tags_of [] = []
tags_of (c ∷ cs) = c.tag ∷ tags_of cs

-- What the connection does to the consumers on an error.
unfoldable pub close_consumers : List Consumer → List Consumer
close_consumers [] = []
close_consumers (c ∷ cs) = record c { state = closed } ∷ close_consumers cs

-- The listener of 'rawMessage': who gets the message of a consumer.
unfoldable pub listener_of : ℕ → List Consumer → Option ℕ
listener_of tag [] = none
listener_of tag (c ∷ cs) =
    let later = listener_of tag cs in if c.tag == tag then some c.listener else later
