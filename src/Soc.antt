-- ===== src/Soc.antt =====
-- include/cortex_forge_regs.h, include/cortex_forge_platform.h, src/cortex_forge_platform.c and
-- src/cortex_forge_irq.c: the description of an SoC, which the device tree selects, and the interrupt
-- handler that calls through it. `Hw` is the state of the hardware and `Config` is a structure that
-- the headers only declare. An address of a string or a table is the string or the table.
pub mod Interrupts
use cortex_forge_driver.Base.{zero, suc, ℕ, List, [], ◌∷◌, Bool, true, Option, none, some, ◌==◌}
use cortex_forge_driver.Errno.{Errno, Ret, ok, fail}
use cortex_forge_driver.Uapi.{task_complete}
use Prim.Native.String.{String}

abbrev pub reg_unverified : ℕ
reg_unverified = 0xFFFFFFFF

pub record Regs : Type 0 where
  pub ctrl : ℕ
  pub status : ℕ
  pub int_mask : ℕ
  pub int_status : ℕ
  pub task_addr : ℕ
  pub task_size : ℕ
  pub fw_status : ℕ
  pub perf_cnt : ℕ

abbrev pub cortex_forge_regs_unverified : Regs → Bool
cortex_forge_regs_unverified regs = regs.ctrl == reg_unverified

abbrev pub tegra234_dla_regs : Regs
tegra234_dla_regs = record {
  ctrl = reg_unverified;
  status = reg_unverified;
  int_mask = reg_unverified;
  int_status = reg_unverified;
  task_addr = reg_unverified;
  task_size = reg_unverified;
  fw_status = reg_unverified;
  perf_cnt = reg_unverified;
}

abbrev pub tegra234_pva_regs : Regs
tegra234_pva_regs = record {
  ctrl = reg_unverified;
  status = reg_unverified;
  int_mask = reg_unverified;
  int_status = reg_unverified;
  task_addr = reg_unverified;
  task_size = reg_unverified;
  fw_status = reg_unverified;
  perf_cnt = reg_unverified;
}

-- A struct regmap_config; the callbacks are NULL.
pub record RegmapConfig : Type 0 where
  pub reg_bits : ℕ
  pub val_bits : ℕ
  pub reg_stride : ℕ
  pub max_register : ℕ
  pub cached_flat : Bool

abbrev pub regmap_cfg : RegmapConfig
regmap_cfg = record {
  reg_bits = 32;
  val_bits = 32;
  reg_stride = 4;
  max_register = 0x1000;
  cached_flat = true;
}

pub data IrqReturn : Type 0 where
  irq_none irq_handled irq_wake_thread : IrqReturn

module _ (Hw Config : Type 0) where
  -- An operation that may be NULL is an Option. `poll_task` gives the status it stores.
  pub record HwOps : Type 0 where
    pub init : Hw → Ret × Hw
    pub deinit : Hw → Hw
    pub irq_ack : Option (Hw → ℕ × Hw)
    pub configure : Hw → Config → Ret × Hw
    pub submit_task : Hw → ℕ → ℕ → ℕ → ℕ → ℕ → Ret × Hw
    pub poll_task : Hw → ℕ → Ret × ℕ × Hw
    pub quirk_fixup : Option (Hw → Ret × Hw)

  pub record SocData : Type 0 where
    pub name : String
    pub ops : Option HwOps
    pub regmap_config : RegmapConfig
    pub num_dla : ℕ
    pub num_pva : ℕ
    pub clk_names : List String
    pub quirks : ℕ

  abbrev pub tegra234_ops : HwOps
  tegra234_ops = record {
    init = λ hw. (ok, hw);
    deinit = λ hw. hw;
    irq_ack = some (λ hw. (0, hw));
    configure = λ hw cfg. (ok, hw);
    submit_task = λ hw task_id input_addr input_size output_addr output_size. (ok, hw);
    poll_task = λ hw task_id. (ok, task_complete, hw);
    quirk_fixup = none;
  }

  abbrev pub tegra234_clocks : List String
  tegra234_clocks =
      "dla0_core" ∷ "dla0_falcon" ∷ "dla1_core" ∷ "dla1_falcon" ∷ "pva0_core" ∷ "pva0_falcon" ∷ []

  abbrev pub tegra234_data : SocData
  tegra234_data = record {
    name = "Tegra234 (Jetson AGX Orin)";
    ops = some tegra234_ops;
    regmap_config = regmap_cfg;
    num_dla = 2;
    num_pva = 1;
    clk_names = tegra234_clocks;
    quirks = 0;
  }

  abbrev pub of_match : List (String × SocData)
  of_match = ("nvidia,tegra234-cortex-forge", tegra234_data) ∷ []

  abbrev pub data_of : Option (String × SocData) → Option SocData
  data_of none = none
  data_of (some entry) = some entry.1

  -- `of_match_node` is the kernel's; a device without a device tree node has `none`.
  unfoldable pub cortex_forge_get_soc_data :
      {Node : Type 0}
      → (List (String × SocData) → Node → Option (String × SocData))
      → Option Node
      → Option SocData
  cortex_forge_get_soc_data of_match_node none = none
  cortex_forge_get_soc_data of_match_node (some node) = data_of (of_match_node of_match node)

  -- What the interrupt handlers read and write of the device.
  pub record IrqDev : Type 0 where
    pub soc : SocData
    pub hw : Hw
    pub pending_events : ℕ

  -- The rest of the handler once the events of the interrupt have been read.
  abbrev pub note_events : IrqDev → ℕ × Hw → IrqReturn × IrqDev
  note_events dev (zero, hw) = (irq_none, record dev { hw = hw })
  note_events dev (suc events, hw) =
      (irq_wake_thread, record dev { hw = hw; pending_events = suc events })

  abbrev pub acknowledge : IrqDev → Option (Hw → ℕ × Hw) → IrqReturn × IrqDev
  acknowledge dev none = (irq_none, dev)
  acknowledge dev (some irq_ack) = note_events dev (irq_ack dev.hw)

  unfoldable pub cortex_forge_hardirq : IrqDev → IrqReturn × IrqDev
  cortex_forge_hardirq dev = elim dev.soc.ops [
    | none ↦ (irq_none, dev)
    | some ops ↦ acknowledge dev ops.irq_ack
  ]

  abbrev pub cortex_forge_threaded_irq : IrqDev → IrqReturn × IrqDev
  cortex_forge_threaded_irq dev = (irq_handled, dev)

-- cortex_forge_irq_init, from what devm_request_threaded_irq returns; the flag tells whether the line
-- is requested.
abbrev pub cortex_forge_irq_init : Option Errno → Bool → Ret × Bool
cortex_forge_irq_init none requested = (ok, true)
cortex_forge_irq_init (some e) requested = (fail e, requested)
