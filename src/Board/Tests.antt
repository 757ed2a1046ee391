-- ===== src/Board/Tests.antt =====
-- The theorems on the mailbox at a channel to the other core.
use v85x_openamp.Base.{
  ◌+◌, ℕ, suc, ◌-◌, ◌%◌, ◌≡◌, ◌⊎◌, refl, arith, true, none, some, List, [], ◌∷◌, ◌++◌, length, take,
  ◌==◌, if◌then◌else◌,
}
use v85x_openamp.Virtqueue.State.{ok}
use v85x_openamp.Board.Mailbox.{
  MsgEndpoint, Msgbox, calculte_n, read_status, read_reg, irq_status, write_status, write_reg,
  hal_msgbox_alloc_channel, hal_msgbox_free_channel, hal_msgbox_channel_send,
  irq_msgbox_channel_handler, msgbox_enable_rec_int,
}
use v85x_openamp.Board.Mailbox.Channels.{Chain, settings}
use v85x_openamp.Board.Mailbox.Allocation.{
  hal_msgbox_alloc_channel-Chain, hal_msgbox_free_channel-Chain,
}
use v85x_openamp.Board.Mailbox.Packing.{bytes_of}
use v85x_openamp.Board.Mailbox.Words.{Outbox, hal_msgbox_channel_send-bytes}
use v85x_openamp.Board.Mailbox.Drain.{Inbox, Listens, irq_msgbox_channel_handler-heard}

-- the channel of the firmware: it reads from channel 1 and writes to channel 0
abbrev a_medp : MsgEndpoint
a_medp = record {
  local_amp = 1;
  remote_amp = 0;
  write_ch = 0;
  read_ch = 1;
  receive = true;
  next = none;
}

-- a mailbox that makes room within three reads, and keeps the words
abbrev busy_read : ℕ → ℕ × List ℕ → ℕ × (ℕ × List ℕ)
busy_read a (n, ws) = (if n % 4 == 0 then 0 else 8, (n - 1, ws))

abbrev keep_write : ℕ → ℕ → ℕ × List ℕ → ℕ × List ℕ
keep_write a w (n, ws) = (n, ws ++ w ∷ [])

abbrev an_outbox : Outbox busy_read keep_write (write_status a_medp) (write_reg a_medp) 3
an_outbox = record {
  sent = λ r. r.1;
  room_in = λ r. r.0 % 4;
  bounded = λ r. omega arith;
  waits = λ r full. ground (arith, full);
  read_keeps = λ r. refl;
  takes = λ r w. refl;
}

hal_msgbox_channel_send-bytes_example :
    (r' : ℕ × List ℕ) × (words : List ℕ) × (hal_msgbox_channel_send busy_read keep_write 4 a_medp
        (10 ∷ 20 ∷ 30 ∷ 40 ∷ 50 ∷ [])
        5
        (2, [])
      ≡ ok r')
    × (r'.1 ≡ words)
    × (take 5 (bytes_of words) ≡ 10 ∷ 20 ∷ 30 ∷ 40 ∷ 50 ∷ [])
    × (length words ≡ 2)
hal_msgbox_channel_send-bytes_example =
    hal_msgbox_channel_send-bytes busy_read keep_write a_medp 3 an_outbox 4
      (10 ∷ 20 ∷ 30 ∷ 40 ∷ 50 ∷ []) (2, [])
      (omega arith, (omega arith, (omega arith, (omega arith, (omega arith, tt))))) (omega arith)

-- the first of two channels is the one that is read from
abbrev two_channels : Msgbox (ℕ × List ℕ) (List ℕ)
two_channels = record {
  it_edp = some 100;
  ept = λ p. record a_medp { next = if p == 100 then some 200 else none };
  regs = (0, []);
  clients = [];
}

hal_msgbox_alloc_channel-Chain_example :
    (s' : Msgbox (ℕ × List ℕ) (List ℕ)) × (hal_msgbox_alloc_channel busy_read keep_write 2
        two_channels 300 0 1 0
      ≡ ok (0, s'))
    × Chain s'.ept s'.it_edp (100 ∷ 200 ∷ 300 ∷ [])
    × (settings (s'.ept 300) ≡ (1, 0, 0, 1, true))
    × ((q : ℕ) → (q ≡ 300) ⊎ (settings (s'.ept q) ≡ settings (two_channels.ept q)))
    × (s'.regs ≡ msgbox_enable_rec_int busy_read keep_write (s'.ept 300) (0, []))
hal_msgbox_alloc_channel-Chain_example =
    hal_msgbox_alloc_channel-Chain busy_read keep_write 2 two_channels (100 ∷ 200 ∷ []) 300 0 1 0
      (refl, refl, (refl, refl, refl)) refl (omega arith)

hal_msgbox_free_channel-Chain_example :
    (s' : Msgbox (ℕ × List ℕ) (List ℕ)) × (hal_msgbox_free_channel busy_read keep_write 2
        two_channels 200
      ≡ ok s')
    × Chain s'.ept s'.it_edp (100 ∷ [])
    × ((q : ℕ) → settings (s'.ept q) ≡ settings (two_channels.ept q))
    × (s'.regs ≡ (0, []))
hal_msgbox_free_channel-Chain_example =
    hal_msgbox_free_channel-Chain busy_read keep_write 2 two_channels (100 ∷ []) [] 200
      (refl, refl, (refl, refl, refl)) (omega arith)

-- the words that wait for a channel, at its two registers, and those that have been sent
abbrev Words : Type 0
Words = List ℕ × List ℕ

abbrev queue_read : ℕ → Words → ℕ × Words
queue_read a ([], out) = (0, ([], out))
queue_read a (w ∷ ws, out) =
    if a == read_status a_medp then (suc (length ws), (w ∷ ws, out)) else (w, (ws, out))

abbrev send_write : ℕ → ℕ → Words → Words
send_write a w (ws, out) = (ws, if a == write_reg a_medp then out ++ w ∷ [] else out)

queue_read-length : (r : Words) → (queue_read (read_status a_medp) r).0 ≡ length r.0
unfolding calculte_n
queue_read-length ([], out) = refl
queue_read-length (w ∷ ws, out) = refl

queue_read-keeps : (r : Words) → (queue_read (read_status a_medp) r).1.0 ≡ r.0
unfolding calculte_n
queue_read-keeps ([], out) = refl
queue_read-keeps (w ∷ ws, out) = refl

queue_read-takes :
    (r : Words) (w : ℕ) (ws : List ℕ)
    → r.0 ≡ w ∷ ws
    → ((queue_read (read_reg a_medp) r).0 ≡ w) × ((queue_read (read_reg a_medp) r).1.0 ≡ ws)
unfolding calculte_n
queue_read-takes ([], out) w ws e = absurd (ground (arith, e))
queue_read-takes (x ∷ xs, out) w ws e = ground (arith, e)

send_write-keeps : (a w : ℕ) (r : Words) → (send_write a w r).0 ≡ r.0
send_write-keeps a w (ws, out) = refl

abbrev an_inbox :
    Inbox queue_read send_write (read_status a_medp) (read_reg a_medp) (irq_status a_medp)
an_inbox = record {
  waiting = λ r. r.0;
  counts = queue_read-length;
  count_keeps = queue_read-keeps;
  takes = queue_read-takes;
  answer_keeps = λ r bits. send_write-keeps (irq_status a_medp) bits r;
}

-- a callback that answers each word over the mailbox
abbrev answer : ℕ → ℕ → Msgbox Words (List ℕ) → Msgbox Words (List ℕ)
answer w p s = record s {
  clients = s.clients ++ w ∷ [];
  regs = send_write (write_reg a_medp) (w + 1) s.regs;
}

abbrev an_ear : Listens answer (λ r. r.0)
an_ear = record {
  heard = λ ws. ws;
  hears = λ w p s. refl;
  keeps_waiting = λ w p s. send_write-keeps (write_reg a_medp) (w + 1) s.regs;
  keeps_callback = λ w p s. refl;
}

abbrev two_words : Msgbox Words (List ℕ)
two_words = record { it_edp = some 100; ept = λ p. a_medp; regs = (7 ∷ 8 ∷ [], []); clients = [] }

irq_msgbox_channel_handler-heard_example :
    (s' : Msgbox Words (List ℕ)) × (irq_msgbox_channel_handler queue_read send_write answer 3 100
        two_words
      ≡ ok s')
    × (s'.clients ≡ 7 ∷ 8 ∷ [])
    × (s'.regs.0 ≡ [])
irq_msgbox_channel_handler-heard_example =
    irq_msgbox_channel_handler-heard queue_read send_write answer 3 100 two_words an_inbox an_ear
      refl (omega arith)
