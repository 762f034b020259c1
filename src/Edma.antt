-- ===== src/Edma.antt =====
-- emulator/qemu/cdj_c6747_edma.h and .c: the DMA engine, with its state here, its transfers in
-- Edma/Transfer and its registers in Edma/Registers. The memory that it moves belongs to its client,
-- so the bus is a parameter. Allocation of the event queue never fails here.
mod Tests
pub mod Transfer
pub mod Registers
use Prim.Native.Nat.{bit_and}
use cdj2000_emulator.Prelude.{
  ℕ, zero, suc, ◌+◌, ◌-◌, ◌*◌, ◌/◌, ◌%◌, ◌^◌, ◌==◌, ◌!=◌, ltb, leb, if◌then◌else◌, Bool, true,
  false, not, ◌&&◌, ◌||◌, Option, none, some, List, [], ◌∷◌, ◌++◌,
}
use cdj2000_emulator.Prelude.Arrays.{Array}
use cdj2000_emulator.Prelude.Word.{has, not32}

abbrev pub edma_base : ℕ
edma_base = 0x01c00000

abbrev pub params : ℕ
params = 128

-- `CdjC6747EdmaBus`, over the client's memory: a read of a span returns its bytes, a write says
-- whether it is accepted, and takes place if `commit` is set.
pub record Bus (M : Type 0) : Type 0 where
  pub read : M → ℕ → ℕ → Option (List ℕ)
  pub write : M → ℕ → List ℕ → Bool → Bool × M

-- `CdjC6747Edma`
pub record Edma : Type 0 where
  pub param : Array (Array ℕ)
  pub qchmap : Array ℕ
  pub dmaqnum : Array ℕ
  pub qdmaqnum : ℕ
  pub qwmthra : ℕ
  pub drae : Array ℕ
  pub qrae : Array ℕ
  pub er : ℕ
  pub esr : ℕ
  pub cer : ℕ
  pub eer : ℕ
  pub ser : ℕ
  pub qer : ℕ
  pub qeer : ℕ
  pub qser : ℕ
  pub ier : ℕ
  pub ipr : ℕ
  pub irq_notifications : ℕ
  pub emr : ℕ
  pub qemr : ℕ
  pub ccerr : ℕ
  pub transfer_requests : ℕ
  pub bytes_transferred : ℕ

abbrev pub opt_itcchen : ℕ
opt_itcchen = 2 ^ 23

abbrev pub opt_tcchen : ℕ
opt_tcchen = 2 ^ 22

abbrev pub opt_itcinten : ℕ
opt_itcinten = 2 ^ 21

abbrev pub opt_tcinten : ℕ
opt_tcinten = 2 ^ 20

abbrev pub opt_static : ℕ
opt_static = 2 ^ 3

abbrev pub opt_syncdim : ℕ
opt_syncdim = 2 ^ 2

abbrev pub opt_allowed : ℕ
opt_allowed = 0x00f3ff0f

abbrev pub service_limit : ℕ
service_limit = 1048576

-- `EventKind` and `PendingEvent`
pub data EventKind : Type 0 where
  event_dma event_qdma : EventKind

abbrev pub PendingEvent : Type 0
PendingEvent = EventKind × ℕ

-- `PendingQueue`: the items from `head` on, and `tail`, which counts every item that there was.
pub record PendingQueue : Type 0 where
  pub items : List PendingEvent
  pub tail : ℕ

pub enqueue : PendingQueue → PendingEvent → Option PendingQueue
enqueue queue event =
    if leb service_limit queue.tail
    then none
    else some (record { items = queue.items ++ (event ∷ []); tail = queue.tail + 1 })

pub locate : ℕ → Option ℕ
locate address =
    if ltb address edma_base || leb (edma_base + 0x8000) address || has address 3
    then none
    else some (address - edma_base)

-- The fields of a parameter set's words.
abbrev pub acnt : Array ℕ → ℕ
acnt p = bit_and (p 2) 0xffff

abbrev pub bcnt : Array ℕ → ℕ
bcnt p = p 2 / 2 ^ 16

abbrev pub ccnt : Array ℕ → ℕ
ccnt p = bit_and (p 7) 0xffff

abbrev pub tcc : Array ℕ → ℕ
tcc p = bit_and (p 0 / 2 ^ 12) 0x3f

abbrev pub ab_sync : Array ℕ → Bool
ab_sync p = has (p 0) opt_syncdim

pub legal_opt : ℕ → Bool
legal_opt value =
    not (has value (not32 opt_allowed))
    && ltb (bit_and (value / 2 ^ 12) 0x3f) 32
    && leb (bit_and (value / 2 ^ 8) 7) 5

pub legal_queue_map : ℕ → Bool
legal_queue_map value = not (has value (not32 0x11111111))

-- The parameter set that a QDMA channel is mapped to.
abbrev pub mapped_set : ℕ → ℕ
mapped_set value = bit_and (value / 2 ^ 5) 0x1ff

pub legal_qchmap : ℕ → Bool
legal_qchmap value = not (has value (not32 0x0ffc)) && ltb (mapped_set value) params

-- `valid_param`
pub valid_param : Array ℕ → Bool
valid_param p =
    let link = bit_and (p 5) 0xffff in
    let offset = bit_and link 0x3fff in
    legal_opt (p 0)
    && not (has (p 0) 3)
    && acnt p != 0
    && bcnt p != 0
    && ccnt p != 0
    && not (has (p 7) 0xffff0000)
    && (link == 0xffff || (not (has offset 31) && ltb offset (params * 32)))

pub reset : Edma
reset = record {
  param = λ set word. 0;
  qchmap = λ q. 0;
  dmaqnum = λ n. 0;
  qdmaqnum = 0;
  qwmthra = 0;
  drae = λ r. 0;
  qrae = λ r. 0;
  er = 0;
  esr = 0;
  cer = 0;
  eer = 0;
  ser = 0;
  qer = 0;
  qeer = 0;
  qser = 0;
  ier = 0;
  ipr = 0;
  irq_notifications = 0;
  emr = 0;
  qemr = 0;
  ccerr = 0;
  transfer_requests = 0;
  bytes_transferred = 0;
}

-- A test of every index below a bound.
pub every : ℕ → (ℕ → Bool) → Bool
every zero test = true
every (suc n) test = test n && every n test

-- `cdj_c6747_edma_valid`
pub valid : Edma → Bool
valid s =
    every 8 (λ q. legal_qchmap (s.qchmap q))
    && every 4 (λ n. legal_queue_map (s.dmaqnum n))
    && legal_queue_map s.qdmaqnum
    && not (has s.qwmthra (not32 0x1f1f))
    && not (has s.qer (not32 0xff))
    && not (has s.qeer (not32 0xff))
    && not (has s.qser (not32 0xff))
    && not (has s.qemr (not32 0xff))
    && not (has s.irq_notifications (not32 15))
    && not (has s.ccerr (not32 0x00030003))
    && every 4 (λ r. not (has (s.qrae r) (not32 0xff)))
    && every params (λ p. legal_opt (s.param p 0) && not (has (s.param p 7) 0xffff0000))
