-- ===== src/Spi/Transfer/Valid.antt =====
-- Every round of a transfer that its check accepts leaves one that it accepts.
use cdj2000_emulator.Prelude.{
  ◌∙◌, ℕ, ◌-◌, ◌/◌, ◌%◌, ◌^◌, ◌≤◌, ◌<◌, ◌==◌, ◌!=◌, if◌then◌else◌, Bool, true, false, ◌≡◌, ◌≢◌, ◌⊎◌,
  refl, arith, ap, inr,
}
use mathlib.Core.Path.{ap₂}
use cdj2000_emulator.Prelude.Bits.{bit_and-mask}
use cdj2000_emulator.Prelude.Cases.{if_keeps}
use cdj2000_emulator.Spi.Dac
use cdj2000_emulator.Spi.Dac.{word_valid, latch}
use cdj2000_emulator.Spi.Dac.Laws.{write-valid_word, latch-valid}
use cdj2000_emulator.Spi.Transfer.{
  Line, Transfer, transfer_valid, transfer_word_valid, strict_format, strict_delay, idle, c2t,
  shift, t2c, gap, shift_half_ticks, c2t_half_ticks, t2c_half_ticks, start_transfer, emptied,
  finish_c2t, finish_shift, finish_chip_select, finish_gap, phase_end,
}

-- A converter and a transfer that `advance` accepts.
abbrev pub IsReady : Line → Type 0
IsReady l = (Dac.valid l.dac ≡ true) × (transfer_valid l.transfer ≡ true) × (l.transfer.fault ≡ 0)

-- What the words of an accepted transfer are.
pub valid_word :
    (control format delay : ℕ)
    → transfer_word_valid control format delay ≡ true
    → (word_valid control ≡ true) × (format ≡ strict_format) × (delay ≡ strict_delay)
unfolding transfer_word_valid
valid_word control format delay h = ground arith

pub word_of_strict :
    (control : ℕ)
    → word_valid control ≡ true
    → transfer_word_valid control strict_format strict_delay ≡ true
unfolding transfer_word_valid
word_of_strict control h = ground arith

pub no_word : transfer_word_valid 0 0 0 ≡ false
unfolding transfer_word_valid
no_word = refl

pub strict_shift : shift_half_ticks strict_format ≡ 775
unfolding shift_half_ticks
strict_shift = refl

pub strict_c2t : c2t_half_ticks strict_delay ≡ 8
unfolding c2t_half_ticks
strict_c2t = refl

pub strict_t2c : t2c_half_ticks strict_format strict_delay ≡ 31
unfolding t2c_half_ticks
strict_t2c = refl

pub phase_range : (t : Transfer) → transfer_valid t ≡ true → t.phase ≤ gap
unfolding transfer_valid
phase_range t h = ground arith

-- An active phase has time left, and a shifting one has a word of the only accepted shape.
pub active_remaining :
    (t : Transfer) → transfer_valid t ≡ true → t.phase ≢ idle → 0 < t.half_ticks_remaining
unfolding transfer_valid
active_remaining t h a = ground arith

pub active_word :
    (t : Transfer)
    → transfer_valid t ≡ true
    → 0 < t.phase
    → t.phase < gap
    → transfer_word_valid t.active_control t.active_format t.active_delay ≡ true
unfolding transfer_valid
active_word t h a b = ground arith

pub queued_word :
    (t : Transfer)
    → transfer_valid t ≡ true
    → t.queued_valid ≢ 0
    → transfer_word_valid t.queued_control t.queued_format t.queued_delay ≡ true
unfolding transfer_valid
queued_word t h a = ground arith

-- The times of an accepted transfer.
module _ (t : Transfer) (v : transfer_valid t ≡ true) (a : 0 < t.phase) (b : t.phase < gap) where
  pub active_strict :
      (word_valid t.active_control ≡ true)
      × (t.active_format ≡ strict_format)
      × (t.active_delay ≡ strict_delay)
  active_strict = valid_word t.active_control t.active_format t.active_delay (active_word t v a b)

  pub shift_time : shift_half_ticks t.active_format ≡ 775
  shift_time = ap shift_half_ticks active_strict.1 ∙ strict_shift

  pub t2c_time : t2c_half_ticks t.active_format t.active_delay ≡ 31
  t2c_time = ap₂ t2c_half_ticks active_strict.1 active_strict.2 ∙ strict_t2c

c2t-valid :
    (t : Transfer)
    → transfer_valid t ≡ true
    → t.phase ≡ c2t
    → transfer_valid
        (record t { phase = shift; half_ticks_remaining = shift_half_ticks t.active_format })
      ≡ true
unfolding transfer_valid
c2t-valid t v p = ground (arith, shift_time t v (omega arith) (omega arith))

shift-valid :
    (t : Transfer)
    → transfer_valid t ≡ true
    → t.phase ≡ shift
    → transfer_valid (record t {
      tx_full = if t.queued_valid != 0 then 0 else t.tx_full;
      phase = t2c;
      half_ticks_remaining = t2c_half_ticks t.active_format t.active_delay;
    })
      ≡ true
unfolding transfer_valid
shift-valid t v p = ground (arith, t2c_time t v (omega arith) (omega arith))

released-valid :
    (t : Transfer) (c : ℕ)
    → transfer_valid t ≡ true
    → t.phase ≡ t2c
    → c < 2
    → transfer_valid (record t {
      previous_cshold = c;
      active_control = 0;
      active_format = 0;
      active_delay = 0;
      phase = gap;
      half_ticks_remaining = 4;
    })
      ≡ true
unfolding transfer_valid
released-valid t c v p h = ground (arith, no_word)

start-fault :
    (t : Transfer) (control format delay : ℕ)
    → (start_transfer t control format delay).fault ≡ t.fault
unfolding start_transfer
start-fault t control format delay = refl

-- A transfer that starts from a cleared queue.
pub started-valid :
    (t : Transfer) (control format delay : ℕ)
    → transfer_valid t ≡ true
    → t.phase < c2t ⊎ t.phase ≡ gap
    → transfer_word_valid control format delay ≡ true
    → transfer_valid (start_transfer (emptied t) control format delay) ≡ true
unfolding transfer_valid start_transfer
started-valid t control format delay v p w =
    let shape = valid_word control format delay w in
    ground (arith, no_word, ap c2t_half_ticks shape.2, strict_c2t)

idle-valid :
    (t : Transfer)
    → transfer_valid t ≡ true
    → t.phase ≡ gap
    → t.queued_valid ≡ 0
    → transfer_valid (record t { phase = idle; half_ticks_remaining = 0 }) ≡ true
unfolding transfer_valid
idle-valid t v p q = ground (arith, no_word)

spent-valid :
    (t : Transfer) (n : ℕ)
    → transfer_valid t ≡ true
    → t.phase ≢ idle
    → n < t.half_ticks_remaining
    → transfer_valid (record t { half_ticks_remaining = t.half_ticks_remaining - n }) ≡ true
unfolding transfer_valid
spent-valid t n v p q = rw (left) v
  where
    left : (t.half_ticks_remaining - n != 0) ≡ (t.half_ticks_remaining != 0)
    left = ground arith

-- A part of a phase.
pub spent-IsReady :
    (l : Line) (n : ℕ)
    → IsReady l
    → l.transfer.phase ≢ idle
    → n < l.transfer.half_ticks_remaining
    → IsReady (record l {
      transfer = record l.transfer { half_ticks_remaining = l.transfer.half_ticks_remaining - n };
    })
spent-IsReady l n (d, v, f) a h = (d, spent-valid l.transfer n v a h, f)

pub finish_chip_select_lem :
    (l : Line)
    → IsReady l
    → l.transfer.phase ≡ t2c
    → ((finish_chip_select l).0 ≡ true)
      × IsReady (finish_chip_select l).1
      × ((finish_chip_select l).1.dac ≡ latch l.dac (l.transfer.active_control % 2 ^ 16))
unfolding finish_chip_select
finish_chip_select_lem l (d, v, f) p =
    rw
      (write-valid_word l.dac l.transfer.active_control
        (active_strict l.transfer v (omega arith) (omega arith)).0)
      (
        refl,
        (
          latch-valid l.dac (l.transfer.active_control % 2 ^ 16) d,
          released-valid l.transfer _ v p
              (omega (arith, bit_and-mask 1 (l.transfer.active_control / 2 ^ 28))),
          f,
        ),
        refl,
      )

finish_gap-IsReady : (l : Line) → IsReady l → l.transfer.phase ≡ gap → IsReady (finish_gap l)
unfolding finish_gap
finish_gap-IsReady l (d, v, f) p =
    if_keeps IsReady (l.transfer.queued_valid != 0)
      (λ more. (
        d,
        started-valid l.transfer l.transfer.queued_control l.transfer.queued_format
            l.transfer.queued_delay v (inr p) (queued_word l.transfer v (ground (arith, more))),
        start-fault (emptied l.transfer) l.transfer.queued_control l.transfer.queued_format
              l.transfer.queued_delay
            ∙ f,
      ))
      (λ last. (d, idle-valid l.transfer v p (ground (arith, last)), f))

abbrev Good : Bool × Line → Type 0
Good x = (x.0 ≡ true) × IsReady x.1

-- The end of a phase of an accepted transfer is never the fault, and leaves an accepted transfer.
pub phase_end-IsReady :
    (l : Line)
    → IsReady l
    → l.transfer.phase ≢ idle
    → ((phase_end l).0 ≡ true) × IsReady (phase_end l).1
unfolding phase_end finish_c2t finish_shift
phase_end-IsReady l (d, v, f) a =
    if_keeps Good (l.transfer.phase == c2t)
      (λ p. (refl, (d, c2t-valid l.transfer v (ground (arith, p)), f)))
      (λ p.
        if_keeps Good (l.transfer.phase == shift)
          (λ q. (refl, (d, shift-valid l.transfer v (ground (arith, q)), f)))
          (λ q.
            if_keeps Good (l.transfer.phase == t2c)
              (λ r.
                let end = finish_chip_select_lem l (d, v, f) (ground (arith, r)) in (end.0, end.1))
              (λ r.
                if_keeps Good (l.transfer.phase == gap)
                  (λ g. (refl, finish_gap-IsReady l (d, v, f) (ground (arith, g))))
                  (λ g. absurd (ground (arith, phase_range l.transfer v))))))
