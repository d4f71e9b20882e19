-- ===== src/MacTable/Queue.antt =====
-- What the MAC table of server/switch/mac_table.h promises: a queue of places, oldest first, each
-- empty or with an address and its port.
use l4_virtio_net_switch.Prelude.{
  ℕ, Option, none, some, List, [], ◌∷◌, ◌++◌, ◌==◌, if◌then◌else◌, map, replicate,
}
use l4_virtio_net_switch.MacTable.{MacTable, init, learn, flush}

abbrev pub Place : Type 0
Place = Option (ℕ × ℕ)

unfoldable pub port_of : ℕ → List Place → Option ℕ
port_of a [] = none
port_of a (none ∷ l) = port_of a l
port_of a (some (b, p) ∷ l) = if b == a then some p else port_of a l

-- The place of an address leads to another port.
abbrev pub moved : ℕ → ℕ → Place → Place
moved a port none = none
moved a port (some (b, p)) = if b == a then some (b, port) else some (b, p)

abbrev pub emptied : ℕ → Place → Place
emptied port none = none
emptied port (some (b, p)) = if p == port then none else some (b, p)

-- The oldest place goes, with what it holds, and a new one comes.
abbrev pub pushed : Place → List Place → List Place
pushed x [] = x ∷ []
pushed x (y ∷ l) = l ++ (x ∷ [])

unfoldable pub note : ℕ → ℕ → List Place → List Place
note a port l = elim (port_of a l) [
  | none ↦ pushed (some (a, port)) l
  | some p ↦ map (moved a port) l
]

unfoldable pub forget : ℕ → List Place → List Place
forget port l = map (emptied port) l

-- The calls that change the table.
pub data Call : Type 0 where
  learned : ℕ → ℕ → Call
  flushed : ℕ → Call

-- The latest call stands first.
unfoldable pub table_after : ℕ → List Call → MacTable
table_after size [] = init size
table_after size (learned a port ∷ cs) = learn size (table_after size cs) a port
table_after size (flushed port ∷ cs) = flush (table_after size cs) port

unfoldable pub queue_after : ℕ → List Call → List Place
queue_after size [] = replicate size none
queue_after size (learned a port ∷ cs) = note a port (queue_after size cs)
queue_after size (flushed port ∷ cs) = forget port (queue_after size cs)
