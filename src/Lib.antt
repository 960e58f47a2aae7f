-- ===== src/Lib.antt =====
-- Verification of the C programs of the repository: its data structures, sorts and recursions, the
-- programs that play and record sound, a telephone with its interface, what is drawn on a screen,
-- a serial port, a watchdog, pins and pulses, and the download of a file.
--
-- Parts, and the files that model them (paths from the root of the repository):
--   SeqList      数据结构/顺序存储/sqlist.c, .h, main.c: a list of ints in an array
--   LinkedList   数据结构/双链表/类封装/llist.c, .h: a generic circular list, linked both ways
--   ListQueue    数据结构/queue_队列/list/queue.c and main.c: a queue over the generic list
--   ListStack    数据结构/stack_栈/list/stack.c and main.c: a stack over the generic list
--   Container    the interface that these two fill, and the loops of their main.c
--   ArrayStack   数据结构/stack_栈/arr/sqstack.c, .h, main.c: a stack in an array
--   ArrayQueue   数据结构/queue_队列/arr/queue.c, .h, main.c: a queue in a ring of cells
--   NodeHeap     memory with singly linked nodes of any type
--   SingleList   数据结构/链表/单链表/单链表.c: a list of ints behind a header node
--   Polynomial   数据结构/链表/单链表/多项式合并.c: the sum of two polynomials as lists of terms
--   HeadlessList 数据结构/链表/单链表/nohead单链表.c: a list of score records without a header
--   Josephus     数据结构/链表/单链表/yuesefu.c: the Josephus problem on a circular list
--   Sorting      数组/冒泡排序.c and 数组/选择排序.c: bubble sort and selection sort
--   Recursion    函数/调用递归.c: factorial, Fibonacci sequence, towers of Hanoi
--   ArrayFun     函数/函数与数组.c: an exchange of cells, a string copy
--   Device       what a program that works with devices holds, and the calls that it makes
--   Sound        study_test/ALIS_pcm: the programs that play and record sound. Opened is
--                snd_pcm_init, Wav is open_wav_file (Wav.Search is how it ends), Periods the loops
--                over periods, Player and Recorder the frames of
--                main; then one file for each program
--   Lcd          study_test/LCD/lcd_test.c: points, lines and areas in the memory of a screen
--   Camera       study_test/L4F2/v4l2_camera.c: frames of a camera on the screen. Rows shows one
--                frame, Formats and Reading set the camera up, Stream takes the frames; Driver is
--                what a driver of Video for Linux allows
--   Bmp          study_test/LCD/bmp_show.c: a picture from a file on the screen
--   Uart         study_test/UART/uart.c: the settings of a serial port, and its use
--   Sysfs        study_test/GPIO/gpio_in.c, gpio_out.c, study_test/PWM/pwm.c: attribute files;
--                Interrupt is study_test/GPIO/gpio_intr.c
--   Watchdog     study_test/WDOG/watchdog.c: a watchdog and its feeding
--   Url          线程/httpdownload.c: parse_url, the parts of an address
--   Download     线程/httpdownload.c: the header of a response, and the file that follows it
--   Phone        进程/task_phone.c: a telephone call as a state machine; Ui is 进程/task_ui.c
--   Common       lists, integers, tests and arrays that all parts share
-- The queue and the stack call the functions of LinkedList as queue.c and stack.c call those of
-- llist.c, and their programs run through the record of operations in Container.
--
-- State. An array is a list of cells, and an access outside it is `none`. Where nodes are linked,
-- the state is a heap: the fields of every address, and which addresses are allocated. A command
-- on the heap faults (`none`) when it reads, writes or frees an address that is not allocated, so
-- a theorem that a command returns `some` says that it has no use after free and no double free.
-- The result of each `malloc` is an argument: an address, NULL, or a block of arbitrary cells.
-- The functions keep the names of the source without the prefix of their file: `insert` of
-- LinkedList is llist_insert, `enqueue` of ArrayQueue is qu_enqueue, `insert` of SingleList is
-- Inset_Linklist. A pointer that the source writes through is one more component of the result.
--
-- Devices. A program of Sound, Phone, Camera, Bmp, Uart, Sysfs or Watchdog runs in an environment
-- that answers every call of a library or of the system, at every time, with a number and bytes;
-- nothing is assumed of it but what a theorem says. In Bmp the content of the file is known, and a
-- read that does not fail delivers it. In Sound it is assumed
-- that snd_pcm_hw_params_malloc does not fail (its result is not tested), and that from some time on
-- the calls that feed a loop are at an end, which bounds the fuel of the loop. The state is what the
-- program holds: the device, the file, memory, the mode of the terminal. Using or giving back what is
-- not held, or taking it twice, is `none`, so a theorem that a program returns says that it does
-- neither. Each call is kept with its place in the run, its time, so a theorem can say which answer a
-- step follows from. An ioctl that writes its argument back delivers it, as WDIOC_SETTIMEOUT does
-- in Watchdog. A signal runs its handler while the program sleeps or waits for a key; a signal that
-- interrupts other code of main is not modelled.
--
-- Loops. A counted loop recurses on its number of rounds. A loop that follows pointers recurses on
-- fuel and gives `none` when the fuel is used up; the theorems ask for more fuel than there are
-- nodes, and show that then the loop ends. The loop of qu_travel needs at most MAXSIZE rounds.
-- Endless loops (Watchdog, Camera, Sysfs.Interrupt) run for any number of rounds; the loops of
-- Download need more fuel than there are bytes.
--
-- Integers. `int` is ℤ where the values are only stored and compared. An index never leaves the
-- array, and so never the range of `int`. In
-- Recursion and Polynomial each product and sum is checked against the 32 bits of `int`; one that
-- does not fit is undefined in C and `none` here, as are the time of Watchdog, the length of a row
-- of Bmp and the number of bytes of Download. In Lcd the coordinates are unsigned numbers of 32
-- bits, whose sums are taken modulo 2 ^ 32.
--
-- Not modelled: printing, other than as the list of what is printed; main functions that only
-- call the modelled ones on fixed data; st_destroy and qu_destroy of the array versions, which
-- are a call of free; the first version of the generic list (数据结构/双链表/basic) and the copies of
-- llist.c beside the queue and the stack; errors of `read` in Download; the other processes,
-- threads, sockets and device programs, which are input and output.
pub mod Common
pub mod SeqList
pub mod LinkedList
pub mod Container
pub mod ListQueue
pub mod ListStack
pub mod ArrayStack
pub mod ArrayQueue
pub mod NodeHeap
pub mod SingleList
pub mod HeadlessList
pub mod Josephus
pub mod Device
pub mod Sound
pub mod Phone
pub mod Lcd
pub mod Uart
pub mod Sysfs
pub mod Url
pub mod Download
pub mod Watchdog
pub mod Camera
pub mod Bmp
pub mod Polynomial
pub mod Sorting
pub mod Recursion
pub mod ArrayFun
