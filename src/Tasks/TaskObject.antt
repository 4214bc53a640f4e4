-- ===== src/Tasks/TaskObject.antt =====
-- kernel/task.hpp, class `Task`, and its methods in kernel/task.cpp; kernel/message.hpp.
use hon_os.Prelude.{
  ℕ, ◌-◌, ◌*◌, ◌^◌, List, [], ◌∷◌, Option, none, some, Bool, false, bit_and, sub64, replicate,
}

pub data LayerOperation : Type 0 where
  move move_relative draw draw_area : LayerOperation

-- `Message::type` and the member of the union that goes with it. Numbers are only moved.
pub data Payload : Type 0 where
  interrupt_xhci layer_finish : Payload
  timer_timeout : ℕ → ℕ → Payload
  key_push : ℕ → ℕ → ℕ → ℕ → Payload
  layer : LayerOperation → ℕ → ℕ → ℕ → ℕ → ℕ → Payload
  mouse_move : ℕ → ℕ → ℕ → ℕ → ℕ → Payload
  mouse_button : ℕ → ℕ → ℕ → ℕ → Payload
  window_active window_close : ℕ → Payload
  pipe : List ℕ → ℕ → Payload

pub record Message : Type 0 where
  pub payload : Payload
  pub src_task : ℕ

-- The saved registers.
pub record TaskContext : Type 0 where
  pub cr3 : ℕ
  pub rip : ℕ
  pub rflags : ℕ
  pub reserved1 : ℕ
  pub cs : ℕ
  pub ss : ℕ
  pub fs : ℕ
  pub gs : ℕ
  pub rax : ℕ
  pub rbx : ℕ
  pub rcx : ℕ
  pub rdx : ℕ
  pub rdi : ℕ
  pub rsi : ℕ
  pub rsp : ℕ
  pub rbp : ℕ
  pub r8_to_r15 : List ℕ
  -- Bytes 24 to 27 of `fxsave_area`, MXCSR, as one number; nothing else in it is written.
  pub mxcsr : ℕ

-- `memset(&context_, 0, sizeof(context_))`.
abbrev pub zero_context : TaskContext
zero_context = record {
  cr3 = 0;
  rip = 0;
  rflags = 0;
  reserved1 = 0;
  cs = 0;
  ss = 0;
  fs = 0;
  gs = 0;
  rax = 0;
  rbx = 0;
  rcx = 0;
  rdx = 0;
  rdi = 0;
  rsi = 0;
  rsp = 0;
  rbp = 0;
  r8_to_r15 = replicate 8 0;
  mxcsr = 0;
}

pub record FileMapping : Type 0 where
  pub fd : ℕ
  pub vaddr_begin : ℕ
  pub vaddr_end : ℕ

-- A member of `files` stands for the file descriptor that it shares.
pub record Task : Type 0 where
  pub id : ℕ
  pub context : TaskContext
  pub os_stack_ptr : ℕ
  pub msgs : List Message
  pub level : ℕ
  pub running : Bool
  pub files : List ℕ
  pub dpaging_begin : ℕ
  pub dpaging_end : ℕ
  pub file_map_end : ℕ
  pub file_maps : List FileMapping

abbrev pub default_level : ℕ
default_level = 1

-- The constructor.
unfoldable pub make : ℕ → Task
make id = record {
  id = id;
  context = zero_context;
  os_stack_ptr = 0;
  msgs = [];
  level = default_level;
  running = false;
  files = [];
  dpaging_begin = 0;
  dpaging_end = 0;
  file_map_end = 0;
  file_maps = [];
}

abbrev pub kernel_cs : ℕ
kernel_cs = 1 * 2 ^ 3

abbrev pub kernel_ss : ℕ
kernel_ss = 2 * 2 ^ 3

-- The address behind the stack, and the current CR3, come from outside.
unfoldable pub init_context : ℕ → ℕ → ℕ → ℕ → Task → Task
init_context stack_end cr3 function value task = record task {
  context = record zero_context {
    cr3 = cr3;
    rflags = 0x202;
    cs = kernel_cs;
    ss = kernel_ss;
    rsp = sub64 (bit_and stack_end (2 ^ 64 - 1 - 0xf)) 8;
    rip = function;
    rdi = task.id;
    rsi = value;
    mxcsr = 0x1f80;
  };
}

-- `ReceiveMessage`: the oldest message, if any.
pub receive_message : Task → Option Message × Task
receive_message task = elim task.msgs [
  | [] ↦ (none, task)
  | msg ∷ rest ↦ (some msg, record task { msgs = rest })
]
