-- ===== src/PriceLevels/Tests.antt =====
-- exchange/matcher/price_levels.cc: the theorems on one side of a book at a concrete side.
use yquant_system.Base.{ℕ, ◌<◌, ◌≡◌, true, some, [], arith, refl}
use yquant_system.Base.Int.{pos}
use yquant_system.Types.{buy}
use yquant_system.MemPool
use yquant_system.MemPool.Inv.{IsValid, create-Inv, create_has_room}
use yquant_system.PriceLevels.{
  OrderNode, PriceLevels, Pool, new_side, add_order, apply_fill, remove_order,
}
use yquant_system.PriceLevels.Queue.{Order}
use yquant_system.PriceLevels.Inv.{Queues, no_orders, append_at, SideInv, new_side-SideInv}
use yquant_system.PriceLevels.Add.{Added, new_order, add_order-Added}
use yquant_system.PriceLevels.Fill.{Filled, apply_fill-Filled}
use yquant_system.PriceLevels.Remove.{Removed, remove_order-Removed}

abbrev bids : PriceLevels
bids = new_side buy

abbrev two_nodes : Pool
two_nodes = MemPool.create true 2

two_nodes-IsValid : IsValid two_nodes
two_nodes-IsValid = ([], create-Inv true 2)

has_room : two_nodes.in_use < two_nodes.capacity
has_room = create_has_room OrderNode true 2 (omega arith)

bids-SideInv : SideInv two_nodes.slot bids no_orders
bids-SideInv = new_side-SideInv two_nodes.slot buy

add_order-Added_example :
    (i : ℕ) × (p' : Pool) × (l' : PriceLevels) × (add_order two_nodes bids (pos 5) 1 10 100 7
      ≡ some (i, p', l'))
    × Added two_nodes bids no_orders 5 (new_order bids 5 1 10 100 7 i) p' l'
add_order-Added_example =
    add_order-Added two_nodes bids no_orders 5 1 10 100 7 two_nodes-IsValid has_room bids-SideInv
      (omega arith)

-- The side with one order of 7 at tick 5.
first_entry :
    (i : ℕ) × (p' : Pool) × (l' : PriceLevels) × (add_order two_nodes bids (pos 5) 1 10 100 7
      ≡ some (i, p', l'))
    × Added two_nodes bids no_orders 5 (new_order bids 5 1 10 100 7 i) p' l'
first_entry =
    add_order-Added two_nodes bids no_orders 5 1 10 100 7 two_nodes-IsValid has_room bids-SideInv
      (omega arith)

abbrev the_pool : Pool
the_pool = first_entry.1

abbrev the_side : PriceLevels
the_side = first_entry.2

abbrev the_order : Order
the_order = new_order bids 5 1 10 100 7 first_entry.0

abbrev the_queues : Queues
the_queues = append_at no_orders 5 the_order

apply_fill-Filled_example :
    (p' : Pool) × (l' : PriceLevels) × (apply_fill the_pool the_side the_order.ptr 3
      ≡ some (p', l'))
    × Filled the_pool the_side the_queues 5 [] the_order 3 [] p' l'
apply_fill-Filled_example =
    apply_fill-Filled the_pool the_side the_queues 5 [] [] the_order 3 first_entry.4.valid
      first_entry.4.side_inv (omega arith) refl (omega arith) (omega arith)

remove_order-Removed_example :
    (p' : Pool) × (l' : PriceLevels) × (remove_order the_pool the_side the_order.ptr
      ≡ some (p', l'))
    × Removed the_pool the_side the_queues 5 [] the_order [] p' l'
remove_order-Removed_example =
    remove_order-Removed the_pool the_side the_queues 5 [] [] the_order first_entry.4.valid
      first_entry.4.side_inv (omega arith) refl (omega arith)
