-- ===== src/Packet/Lifetime/Tests.antt =====
-- A packet that is sent to a holder of a reference, and ends before that is released.
use network.Prelude.{◌≡◌, refl, true, false, arith, if◌then◌else◌}
use network.Packet.Lifetime.{
  Use, Step, Reach, Block, new_block, add_reference, drop_reference, destroy, made, then_step,
  refers, releases, destroys,
}
use network.Packet.Lifetime.Freed.{given_up, Reach-freed}

abbrev referred : Block
referred = add_reference new_block

abbrev outlived : Use
outlived = record { block = drop_reference (destroy referred); owned = false; held = 0 }

outlived-Reach : Reach outlived
outlived-Reach =
    then_step (then_step (then_step made (refers refl (omega arith))) (destroys refl))
      (releases (omega arith))

Reach-freed_example :
    (outlived.block.freed ≡ (if given_up outlived then 1 else 0))
    × (given_up outlived ≡ true → (v : Use) → ¬ Step outlived v)
Reach-freed_example = Reach-freed outlived-Reach
