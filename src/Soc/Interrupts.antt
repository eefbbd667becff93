-- ===== src/Soc/Interrupts.antt =====
-- The interrupt handler and the SoC lookup, over any SoC and over the one that the driver describes.
use cortex_forge_driver.Base.{
  ap, sym, arith, subst, refl, ℕ, zero, suc, List, ◌≡◌, ◌≢◌, Option, none, some,
}
use cortex_forge_driver.Soc.{
  data_of, IrqReturn, irq_none, irq_wake_thread, SocData, IrqDev, note_events, acknowledge,
  cortex_forge_hardirq, cortex_forge_get_soc_data, tegra234_data, of_match,
}
use mathlib.Core.List.{Memᴰ}
use Prim.Native.String.{String}

module _ (Hw Config : Type 0) where
  -- What the handler promises about a device and what it returns with it.
  abbrev IsReported : IrqDev Hw Config → IrqReturn × IrqDev Hw Config → Type 0
  IsReported dev (irq_wake_thread, dev') = dev'.pending_events ≢ 0
  IsReported dev (_, dev') = dev'.pending_events ≡ dev.pending_events

  note_events-IsReported :
      (dev : IrqDev Hw Config) (e : ℕ × Hw) → IsReported dev (note_events Hw Config dev e)
  note_events-IsReported dev (zero, hw) = refl
  note_events-IsReported dev (suc n, hw) = λ q. absurd (omega (arith, q))

  acknowledge-IsReported :
      (dev : IrqDev Hw Config) (ack : Option (Hw → ℕ × Hw))
      → IsReported dev (acknowledge Hw Config dev ack)
  acknowledge-IsReported dev none = refl
  acknowledge-IsReported dev (some ack) = note_events-IsReported dev (ack dev.hw)

  ops-IsReported : (dev : IrqDev Hw Config) → IsReported dev (cortex_forge_hardirq Hw Config dev)
  unfolding cortex_forge_hardirq
  ops-IsReported dev =
      elim dev.soc.ops
        as (λ o.
          IsReported dev (elim o [
            | none ↦ (irq_none, dev)
            | some ops ↦ acknowledge Hw Config dev ops.irq_ack
          ])) [ none ↦ refl | some ops ↦ acknowledge-IsReported dev ops.irq_ack ]

  -- When the interrupt handler wakes its thread, there are events for the thread to read.
  wake_has_events :
      (dev dev' : IrqDev Hw Config)
      → cortex_forge_hardirq Hw Config dev ≡ (irq_wake_thread, dev')
      → dev'.pending_events ≢ 0
  wake_has_events dev dev' e = subst (IsReported dev) e (ops-IsReported dev)

  -- When it returns that the interrupt was not the device's, it has kept the events of an earlier one.
  pub foreign_keeps_events :
      (dev dev' : IrqDev Hw Config)
      → cortex_forge_hardirq Hw Config dev ≡ (irq_none, dev')
      → dev'.pending_events ≡ dev.pending_events
  foreign_keeps_events dev dev' e = subst (IsReported dev) e (ops-IsReported dev)

  tegra_listed :
      (entry : String × SocData Hw Config)
      → Memᴰ entry (of_match Hw Config)
      → tegra234_data Hw Config ≡ entry.1
  tegra_listed entry (Memᴰ.head q) = sym (ap (λ x. x.1) q)
  tegra_listed entry (Memᴰ.tail m) = elim m [ ]

  tegra_found :
      (o : Option (String × SocData Hw Config)) (soc : SocData Hw Config)
      → ((entry : String × SocData Hw Config) → o ≡ some entry → Memᴰ entry (of_match Hw Config))
      → data_of Hw Config o ≡ some soc
      → tegra234_data Hw Config ≡ soc
  tegra_found none soc law e = cc
  tegra_found (some entry) soc law e = cc (tegra_listed entry (law entry refl))

  -- On a device whose SoC data was found in the match table, by an of_match_node that returns nothing
  -- but entries of the table it is given, the handler always returns IRQ_NONE and changes nothing.
  pub tegra234_never_wakes :
      {Node : Type 0}
      (of_match_node : List (String × SocData Hw Config)
        → Node
        → Option (String × SocData Hw Config))
      (node : Option Node) (dev : IrqDev Hw Config)
      → ((t : List (String × SocData Hw Config)) (n : Node) (entry : String × SocData Hw Config)
          → of_match_node t n ≡ some entry
          → Memᴰ entry t)
      → cortex_forge_get_soc_data Hw Config of_match_node node ≡ some dev.soc
      → cortex_forge_hardirq Hw Config dev ≡ (irq_none, dev)
  unfolding cortex_forge_hardirq cortex_forge_get_soc_data
  tegra234_never_wakes of_match_node none dev law e = cc
  tegra234_never_wakes of_match_node (some n) dev law e =
      subst
        (λ s.
          cortex_forge_hardirq Hw Config (record dev { soc = s })
          ≡ (irq_none, record dev { soc = s }))
        (tegra_found (of_match_node (of_match Hw Config) n) dev.soc (law (of_match Hw Config) n) e)
        refl
